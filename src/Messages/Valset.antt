-- ===== src/Messages/Valset.antt =====
-- src/ublox/ubxmsg/UBX_CFG_VALSET.hpp.
pub mod RoundTrip
pub mod Total
use gnsshat.Base.{
  ℕ, zero, suc, ◌+◌, ◌-◌, Bool, List, [], ◌∷◌, ◌++◌, length, ltb, leb, if◌then◌else◌, Bytes, Result,
  ok, err, out_of_fuel, invalid_frame_size, ◌>>=◌, read_at, read_le, to_le, read_range,
}
use gnsshat.Messages.Framing.{build_frame, body}
use gnsshat.Messages.Pairs.{ConfigKeyValue, pairs_bytes}

-- The layer is the byte under the enumeration, which any received byte is cast to.
pub record Valset : Type 0 where
  pub version : ℕ
  pub layer : ℕ
  pub cfg_data : List ConfigKeyValue

abbrev pub layer_ram : ℕ
layer_ram = 1

unfoldable pub valset_payload : Valset → Bytes
valset_payload msg = msg.version ∷ msg.layer ∷ 0x00 ∷ 0x00 ∷ pairs_bytes msg.cfg_data

-- `serialize`.
unfoldable pub valset_serialize : Valset → Result Bytes
unfolding valset_payload
valset_serialize msg = build_frame (0xB5 ∷ 0x62 ∷ body 0x06 0x8A (valset_payload msg))

abbrev single : ℕ → Bytes → ℕ → Result Bytes
single key value layer =
    valset_serialize (record {
      version = 0x00;
      layer = layer;
      cfg_data = record { key = key; value = value } ∷ [];
    })

pub set_u1 : ℕ → ℕ → ℕ → Result Bytes
unfolding valset_serialize
set_u1 key value layer = single key (value ∷ []) layer

pub set_u2 : ℕ → ℕ → ℕ → Result Bytes
unfolding valset_serialize
set_u2 key value layer = single key (to_le 2 value) layer

pub set_u4 : ℕ → ℕ → ℕ → Result Bytes
unfolding valset_serialize
set_u4 key value layer = single key (to_le 4 value) layer

abbrev push_pair : ℕ → Bytes → List ConfigKeyValue → List ConfigKeyValue
push_pair key [] pairs = pairs
push_pair key (b ∷ value) pairs = record { key = key; value = b ∷ value } ∷ pairs

-- The bytes taken for a value, with so many left in the frame.
abbrev value_size : ℕ → ℕ
value_size remaining = if leb 4 remaining then 4 else remaining

-- The `while` loop of `deserialize`.
unfoldable pub valset_pairs : ℕ → Bytes → ℕ → Result (List ConfigKeyValue)
valset_pairs zero frame offset = err out_of_fuel
valset_pairs (suc fuel) frame offset =
    let next = (do
      key ← read_le 4 frame offset
      let size = value_size (length frame - (offset + 4))
      value ← read_range frame (offset + 4) size
      pairs ← valset_pairs fuel frame (offset + 4 + size)
      ok (push_pair key value pairs)) in
    if ltb (offset + 4) (length frame) then next else ok []

-- Each round goes four bytes on at least, so the size of the frame is fuel enough.
unfoldable pub valset_deserialize : Bytes → Result Valset
unfolding valset_pairs
valset_deserialize frame = if ltb (length frame) 10 then err invalid_frame_size else (do
  version ← read_at frame 6
  layer ← read_at frame 7
  pairs ← valset_pairs (length frame) frame 10
  ok (record { version = version; layer = layer; cfg_data = pairs }))
