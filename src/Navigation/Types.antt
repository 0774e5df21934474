-- ===== src/Navigation/Types.antt =====
-- What the navigation and monitoring messages are read into: src/ublox/PositionVelocityTime.hpp,
-- DilutionOverPrecision.hpp, SatelliteInfo.hpp, RFBlock.hpp, RFBlockSpectrumData.hpp,
-- SystemHealth.hpp, TimeMark.hpp and Geofencing.hpp, all in src/ublox. A field of an enumeration
-- holds the byte that is cast to it, since the casts check nothing.
use gnsshat.Base.{
  ℕ, ◌-◌, ◌/◌, ◌%◌, ◌^◌, ℤ, pos, negsuc, Bool, List, Bytes, Result, ok, ◌>>=◌, ltb, ◌==◌,
  if◌then◌else◌, read_le,
}

-- A floating-point field, as the expression that computes it from the integers of the frame:
-- `n / d`, `n * 0.01` and `n * 100.0 / d`. Rounding is not modelled.
pub data Real : Type 0 where
  ratio : ℤ → ℕ → Real
  hundredths : ℕ → Real
  percent : ℕ → ℕ → Real

-- `getBit`.
abbrev pub get_bit : ℕ → ℕ → Bool
get_bit val place = val / 2 ^ place % 2 == 1

-- The signed number that a word of `bits` bits holds.
abbrev pub signed : ℕ → ℕ → ℤ
signed bits v = if ltb v (2 ^ (bits - 1)) then pos v else negsuc (2 ^ bits - 1 - v)

-- `readLE<int32_t>` and `readLE<int16_t>`, for 4 and 2 bytes.
unfoldable pub read_int : ℕ → ℕ → Bytes → ℕ → Result ℤ
read_int size bits frame offset = do v ← read_le size frame offset; ok (signed bits v)

pub record Utc : Type 0 where
  pub hh : ℕ
  pub mm : ℕ
  pub ss : ℕ
  pub valid : Bool
  pub accuracy : ℤ

pub record Date : Type 0 where
  pub day : ℕ
  pub month : ℕ
  pub year : ℕ
  pub valid : Bool

pub record PositionVelocityTime : Type 0 where
  pub fix_quality : ℕ
  pub fix_status : ℕ
  pub fix_type : ℕ
  pub utc : Utc
  pub date : Date
  pub altitude : Real
  pub altitude_msl : Real
  pub latitude : Real
  pub longitude : Real
  pub speed_over_ground : Real
  pub speed_accuracy : Real
  pub heading : Real
  pub heading_accuracy : Real
  pub visible_satellites : ℕ
  pub horizontal_accuracy : Real
  pub vertical_accuracy : Real

pub record DilutionOverPrecision : Type 0 where
  pub geometric : Real
  pub position : Real
  pub time : Real
  pub vertical : Real
  pub horizontal : Real
  pub northing : Real
  pub easting : Real

pub record SatelliteInfo : Type 0 where
  pub gnss_id : ℕ
  pub sv_id : ℕ
  pub cno : ℕ
  pub elevation : ℤ
  pub azimuth : ℤ
  pub quality : ℕ
  pub used_in_fix : Bool
  pub healthy : Bool
  pub diff_corr : Bool
  pub eph_avail : Bool
  pub alm_avail : Bool

pub record RfBlock : Type 0 where
  pub id : ℕ
  pub jamming_state : ℕ
  pub antenna_status : ℕ
  pub antenna_power : ℕ
  pub post_status : ℕ
  pub noise_per_ms : ℕ
  pub agc_monitor : Real
  pub cw_interference_suppression_level : Real
  pub ofs_i : ℤ
  pub mag_i : ℕ
  pub ofs_q : ℤ
  pub mag_q : ℕ
  pub gnss_band : ℕ

pub record RfBlockSpectrumData : Type 0 where
  pub id : ℕ
  pub samples : Bytes
  pub span : ℕ
  pub resolution : ℕ
  pub center_freq : ℕ
  pub gain : ℕ

pub record SystemHealth : Type 0 where
  pub valid : Bool
  pub msg_version : ℕ
  pub boot_type : ℕ
  pub cpu_load : ℕ
  pub cpu_load_max : ℕ
  pub mem_usage : ℕ
  pub mem_usage_max : ℕ
  pub io_usage : ℕ
  pub io_usage_max : ℕ
  pub run_time : ℕ
  pub notice_count : ℕ
  pub warn_count : ℕ
  pub error_count : ℕ
  pub temperature_c : ℤ

pub record TimeMark : Type 0 where
  pub channel : ℕ
  pub mode : ℕ
  pub run : ℕ
  pub new_falling_edge : Bool
  pub time_base : ℕ
  pub utc_available : Bool
  pub time_valid : Bool
  pub new_rising_edge : Bool
  pub count : ℕ
  pub week_number_rising : ℕ
  pub week_number_falling : ℕ
  pub tow_rising_ms : ℕ
  pub tow_sub_rising_ns : ℕ
  pub tow_falling_ms : ℕ
  pub tow_sub_falling_ns : ℕ
  pub accuracy_estimate_ns : ℕ

-- `Geofencing::Nav`; the array of the states of the fences has four places.
pub record GeofencingNav : Type 0 where
  pub i_tow : ℕ
  pub geofencing_status : ℕ
  pub number_of_geofences : ℕ
  pub combined_state : ℕ
  pub geofences_status : List ℕ

-- `swVersion_`, `hwVersion_` and `extensions_`.
pub record MonVer : Type 0 where
  pub sw_version : Bytes
  pub hw_version : Bytes
  pub extensions : List Bytes
