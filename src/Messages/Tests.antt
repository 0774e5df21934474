-- ===== src/Messages/Tests.antt =====
-- Runs of the code of src/ublox/ubxmsg, and the theorems at concrete inputs.
use gnsshat.Base.{
  ℕ, ◌+◌, ◌*◌, ◌≤◌, ◌<◌, ◌≡◌, ◌⊎◌, refl, [], ◌∷◌, ◌++◌, arith, Bytes, ok, err, IsSafe,
  invalid_frame_size, unknown_key_size, to_le,
}
use gnsshat.Ubx.Frames.Sound.{IsFrame}
use gnsshat.Messages.Keys.{cfg_rate_meas, cfg_rate_timeref, cfg_navspg_fixmode, cfg_uart1_baudrate}
use gnsshat.Messages.KeySizes.{get_key_size}
use gnsshat.Messages.Framing.{build_frame, body, build_frame-IsFrame}
use gnsshat.Messages.Pairs.{ConfigKeyValue, pairs_bytes}
use gnsshat.Messages.Valset.{Valset, layer_ram, set_u1, valset_serialize, valset_deserialize}
use gnsshat.Messages.Valset.RoundTrip.{valset_deserialize-serialize, valset_deserialize-set_u1}
use gnsshat.Messages.Valset.Total.{valset_deserialize_total}
use gnsshat.Messages.Valget.{valget_deserialize}
use gnsshat.Messages.Valget.Responses.{valget_deserialize_response, valget_deserialize_unknown}
use gnsshat.Messages.Valget.Total.{valget_deserialize-IsSafe}

build_frame-IsFrame_example :
    (frame : Bytes) × (build_frame (0xB5 ∷ 0x62 ∷ body 0x06 0x08 (1 ∷ 2 ∷ [])) ≡ ok frame)
    × IsFrame frame
build_frame-IsFrame_example = build_frame-IsFrame 0x06 0x08 (1 ∷ 2 ∷ []) (omega arith)

meas_size : get_key_size cfg_rate_meas ≡ ok 2
unfolding get_key_size
meas_size = refl

timeref_size : get_key_size cfg_rate_timeref ≡ ok 1
unfolding get_key_size
timeref_size = refl

fixmode_size : get_key_size cfg_navspg_fixmode ≡ err (unknown_key_size cfg_navspg_fixmode)
unfolding get_key_size
fixmode_size = refl

abbrev baud : ConfigKeyValue
baud = record { key = cfg_uart1_baudrate; value = 0x00 ∷ 0xC2 ∷ 0x01 ∷ 0x00 ∷ [] }

abbrev set_baud : Valset
set_baud = record { version = 0; layer = layer_ram; cfg_data = baud ∷ [] }

valset_deserialize-serialize_example :
    (frame : Bytes) × (valset_serialize set_baud ≡ ok frame)
    × (valset_deserialize frame ≡ ok set_baud)
valset_deserialize-serialize_example =
    valset_deserialize-serialize set_baud ((omega arith, refl), tt)

valset_deserialize-set_u1_example :
    (frame : Bytes) × (a : ℕ) × (b : ℕ) × (set_u1 cfg_rate_timeref 1 layer_ram ≡ ok frame)
    × (valset_deserialize frame
        ≡ ok (record {
          version = 0;
          layer = layer_ram;
          cfg_data = record { key = cfg_rate_timeref; value = 1 ∷ a ∷ b ∷ [] } ∷ [];
        }))
valset_deserialize-set_u1_example =
    valset_deserialize-set_u1 cfg_rate_timeref 1 layer_ram (omega arith)

valset_deserialize_total_example :
    ((2 < 10) × (valset_deserialize (0xB5 ∷ 0x62 ∷ []) ≡ err invalid_frame_size))
    ⊎ ((10 ≤ 2) × ((msg : Valset) × (valset_deserialize (0xB5 ∷ 0x62 ∷ []) ≡ ok msg)))
valset_deserialize_total_example = valset_deserialize_total (0xB5 ∷ 0x62 ∷ [])

abbrev meas : ConfigKeyValue
meas = record { key = cfg_rate_meas; value = 0xE8 ∷ 0x03 ∷ [] }

abbrev timeref : ConfigKeyValue
timeref = record { key = cfg_rate_timeref; value = 0x00 ∷ [] }

valget_deserialize_response_example :
    valget_deserialize (
      0xB5
      ∷ 0x62
      ∷ 0x06
      ∷ 0x8B
      ∷ 0x0F
      ∷ 0
      ∷ 1
      ∷ 0
      ∷ 0
      ∷ 0
      ∷ (pairs_bytes (meas ∷ timeref ∷ []) ++ 0xAA ∷ 0xBB ∷ []))
    ≡ ok (record {
      version = 1;
      layer = 0;
      position = 0 + 256 * 0;
      keys = cfg_rate_meas ∷ cfg_rate_timeref ∷ [];
      config_data = meas ∷ timeref ∷ [];
    })
valget_deserialize_response_example =
    valget_deserialize_response 0xB5 0x62 0x06 0x8B 0x0F 0 1 0 0 0 0xAA 0xBB meas (timeref ∷ [])
      ((omega arith, meas_size), ((omega arith, timeref_size), tt))

valget_deserialize_unknown_example :
    valget_deserialize (
      0xB5
      ∷ 0x62
      ∷ 0x06
      ∷ 0x8B
      ∷ 0x0F
      ∷ 0
      ∷ 1
      ∷ 0
      ∷ 0
      ∷ 0
      ∷ (pairs_bytes (meas ∷ []) ++ (to_le 4 cfg_navspg_fixmode ++ 0x03 ∷ 0xAA ∷ 0xBB ∷ [])))
    ≡ err (unknown_key_size cfg_navspg_fixmode)
valget_deserialize_unknown_example =
    valget_deserialize_unknown 0xB5 0x62 0x06 0x8B 0x0F 0 1 0 0 0 cfg_navspg_fixmode (meas ∷ [])
      (0x03 ∷ 0xAA ∷ 0xBB ∷ []) _ ((omega arith, meas_size), tt) (omega arith) fixmode_size

valget_deserialize-IsSafe_example : IsSafe (valget_deserialize (0xB5 ∷ 0x62 ∷ []))
valget_deserialize-IsSafe_example = valget_deserialize-IsSafe (0xB5 ∷ 0x62 ∷ [])
