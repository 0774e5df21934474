-- ===== src/Legacy/Simple.antt =====
-- UBX_CFG_RATE.hpp, UBX_CFG_NAV5.hpp, UBX_CFG_MSG.hpp, UBX_CFG_GEOFENCE.hpp, UBX_CFG_CFG.hpp and
-- UBX_CFG_RST.hpp of src/ublox/ubxmsg.
use gnsshat.Base.{
  ℕ, zero, suc, ◌+◌, ◌*◌, ◌/◌, ◌%◌, List, [], ◌∷◌, ◌++◌, pos, Bytes, Result, ok, err,
  invalid_frame_size, out_of_bounds, ◌>>=◌, ltb, if◌then◌else◌, length, slice, read_at, read_le,
}
use gnsshat.Messages.Framing.{build_frame}
use gnsshat.Navigation.Types.{Real, ratio}

pub record Rate : Type 0 where
  pub meas_rate : ℕ
  pub nav_rate : ℕ
  pub time_ref : ℕ

unfoldable pub rate_serialize : Rate → Result Bytes
rate_serialize rate = build_frame (
    0xB5
    ∷ 0x62
    ∷ 0x06
    ∷ 0x08
    ∷ 0x06
    ∷ 0x00
    ∷ (rate.meas_rate % 256)
    ∷ (rate.meas_rate / 256 % 256)
    ∷ (rate.nav_rate % 256)
    ∷ (rate.nav_rate / 256 % 256)
    ∷ (rate.time_ref % 256)
    ∷ (rate.time_ref / 256 % 256)
    ∷ [])

abbrev pub read_rate : Bytes → Result Rate
read_rate frame = do
  meas_low ← read_at frame 6
  meas_high ← read_at frame 7
  nav_low ← read_at frame 8
  nav_high ← read_at frame 9
  ref_low ← read_at frame 10
  ref_high ← read_at frame 11
  ok (record {
    meas_rate = meas_low + 256 * meas_high;
    nav_rate = nav_low + 256 * nav_high;
    time_ref = ref_low + 256 * ref_high;
  })

unfoldable pub rate_deserialize : Bytes → Result Rate
rate_deserialize frame = if ltb (length frame) 14 then err invalid_frame_size else read_rate frame

pub record Nav5 : Type 0 where
  pub mask : ℕ
  pub dynamic_model : ℕ

abbrev zeros : ℕ → Bytes
zeros zero = []
zeros (suc n) = 0 ∷ zeros n

unfoldable pub nav5_serialize : Nav5 → Result Bytes
nav5_serialize nav5 = build_frame (
    0xB5
    ∷ 0x62
    ∷ 0x06
    ∷ 0x24
    ∷ 0x24
    ∷ 0x00
    ∷ (nav5.mask % 256)
    ∷ (nav5.mask / 256 % 256)
    ∷ nav5.dynamic_model
    ∷ zeros 33)

unfoldable pub nav5_deserialize : Bytes → Result Nav5
nav5_deserialize frame = do
  mask ← read_le 2 frame 6
  dynamic_model ← read_at frame 8
  ok (record { mask = mask; dynamic_model = dynamic_model })

-- `sendRateOnPort_` is an array of six bytes.
pub record MsgRates : Type 0 where
  pub class_id : ℕ
  pub msg_id : ℕ
  pub send_rate_on_port : Bytes

unfoldable pub msg_serialize : MsgRates → Result Bytes
msg_serialize msg = build_frame (
    (0xB5 ∷ 0x62 ∷ 0x06 ∷ 0x01 ∷ 0x08 ∷ 0x00 ∷ [])
    ++ ((msg.class_id ∷ msg.msg_id ∷ []) ++ msg.send_rate_on_port))

-- `std::copy` of the bytes 8 to 13.
abbrev pub copy_rates : Bytes → Result Bytes
copy_rates frame = if ltb (length frame) 14 then err out_of_bounds else ok (slice frame 8 6)

unfoldable pub msg_deserialize : Bytes → Result MsgRates
msg_deserialize frame = do
  class_id ← read_at frame 6
  msg_id ← read_at frame 7
  rates ← copy_rates frame
  ok (record { class_id = class_id; msg_id = msg_id; send_rate_on_port = rates })

pub record FenceCircle : Type 0 where
  pub lat : Real
  pub lon : Real
  pub radius : Real

pub record FenceCfg : Type 0 where
  pub pio_pin_number : ℕ
  pub pin_polarity : ℕ
  pub pio_enabled : ℕ
  pub confidence_level : ℕ
  pub geofences : List FenceCircle

-- The fences, with the number that are left.
unfoldable pub read_fences : ℕ → Bytes → ℕ → Result (List FenceCircle)
read_fences zero frame i = ok []
read_fences (suc left) frame i = do
  lat ← read_le 4 frame (14 + i * 12)
  lon ← read_le 4 frame (18 + i * 12)
  radius ← read_le 4 frame (22 + i * 12)
  fences ← read_fences left frame (i + 1)
  ok (
      record {
        lat = ratio (pos lat) 10000000;
        lon = ratio (pos lon) 10000000;
        radius = ratio (pos radius) 100;
      }
      ∷ fences)

unfoldable pub geofence_deserialize : Bytes → Result FenceCfg
geofence_deserialize frame = do
  number ← read_at frame 7
  confidence_level ← read_at frame 8
  pio_enabled ← read_at frame 10
  pin_polarity ← read_at frame 11
  pio_pin_number ← read_at frame 12
  geofences ← read_fences number frame 0
  ok (record {
    pio_pin_number = pio_pin_number;
    pin_polarity = pin_polarity;
    pio_enabled = pio_enabled;
    confidence_level = confidence_level;
    geofences = geofences;
  })

-- `saveToFlash`, `hotStart` and `startGnss`.
abbrev pub save_to_flash : Result Bytes
save_to_flash = build_frame (
    0xB5 ∷ 0x62 ∷ 0x06 ∷ 0x09 ∷ 0x0D ∷ 0x00 ∷ 0x00 ∷ 0x00 ∷ 0x00 ∷ 0x00 ∷ 0xFF ∷ 0xFF ∷ 0x00 ∷ 0x00
    ∷ 0x00 ∷ 0x00 ∷ 0x00 ∷ 0x00 ∷ 0x03 ∷ [])

abbrev pub hot_start : Result Bytes
hot_start = build_frame (0xB5 ∷ 0x62 ∷ 0x06 ∷ 0x04 ∷ 0x04 ∷ 0x00 ∷ 0x00 ∷ 0x00 ∷ 0x01 ∷ 0x00 ∷ [])

abbrev pub start_gnss : Result Bytes
start_gnss = build_frame (0xB5 ∷ 0x62 ∷ 0x06 ∷ 0x04 ∷ 0x04 ∷ 0x00 ∷ 0x00 ∷ 0x00 ∷ 0x09 ∷ 0x00 ∷ [])
