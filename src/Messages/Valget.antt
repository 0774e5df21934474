-- ===== src/Messages/Valget.antt =====
-- src/ublox/ubxmsg/UBX_CFG_VALGET.hpp.
pub mod Responses
pub mod Total
use gnsshat.Base.{
  ℕ, zero, suc, ◌+◌, Bool, List, [], ◌∷◌, ◌++◌, map, length, leb, ltb, ◌==◌, if◌then◌else◌, Bytes,
  Result, ok, err, out_of_fuel, invalid_frame_size, insufficient_data, no_pairs, ◌>>=◌, read_at,
  read_le, to_le, read_range,
}
use gnsshat.Messages.Framing.{build_frame, body}
use gnsshat.Messages.KeySizes.{get_key_size}
use gnsshat.Messages.Pairs.{ConfigKeyValue}

pub record Valget : Type 0 where
  pub version : ℕ
  pub layer : ℕ
  pub position : ℕ
  pub keys : List ℕ
  pub config_data : List ConfigKeyValue

abbrev pub keys_bytes : List ℕ → Bytes
keys_bytes [] = []
keys_bytes (key ∷ keys) = to_le 4 key ++ keys_bytes keys

unfoldable pub valget_serialize : Valget → Result Bytes
valget_serialize msg = build_frame (
    0xB5
    ∷ 0x62
    ∷ body 0x06 0x8B (msg.version ∷ msg.layer ∷ (to_le 2 msg.position ++ keys_bytes msg.keys)))

-- `poll` for several keys.
unfoldable pub valget_poll : List ℕ → Result Bytes
unfolding valget_serialize
valget_poll keys =
    valget_serialize
      (record { version = 0x00; layer = 0; position = 0x0000; keys = keys; config_data = [] })

-- The `while` loop of `parseAsResponse`: the pairs that are stored, in order.
unfoldable pub response_pairs : ℕ → Bytes → ℕ → Result (List ConfigKeyValue)
response_pairs zero frame offset = err out_of_fuel
response_pairs (suc fuel) frame offset =
    let next = (do
      key ← read_le 4 frame offset
      size ← get_key_size key
      let keep = (do
        value ← read_range frame (offset + 4) size
        pairs ← response_pairs fuel frame (offset + 4 + size)
        ok (record { key = key; value = value } ∷ pairs))
      if ltb (length frame) (offset + 4 + size) then err insufficient_data else keep) in
    if leb (offset + 4) (length frame) then next else ok []

abbrev pub some_pairs : List ConfigKeyValue → Result (List ConfigKeyValue)
some_pairs [] = err no_pairs
some_pairs (pair ∷ pairs) = ok (pair ∷ pairs)

-- Each round goes four bytes on at least, so the size of the frame is fuel enough.
unfoldable pub valget_deserialize : Bytes → Result Valget
unfolding response_pairs
valget_deserialize frame = if ltb (length frame) 10 then err invalid_frame_size else (do
  version ← read_at frame 6
  layer ← read_at frame 7
  position ← read_le 2 frame 8
  found ← response_pairs (length frame) frame 10
  pairs ← some_pairs found
  ok (record {
    version = version;
    layer = layer;
    position = position;
    keys = map (λ pair. pair.key) pairs;
    config_data = pairs;
  }))

-- `getConfigValue`: the value of the first pair with the key, or nothing.
unfoldable pub get_config_value : List ConfigKeyValue → ℕ → Bytes
get_config_value [] key = []
get_config_value (pair ∷ pairs) key =
    if pair.key == key then pair.value else get_config_value pairs key
