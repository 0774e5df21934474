-- ===== src/Config.antt =====
-- The user's configuration: src/ublox/GnssConfig.hpp, BaseConfig.hpp, TimingConfig.hpp,
-- TimepulsePinConfig.hpp, Geofence.hpp and RtkConfig.hpp. An enumeration is the byte under it,
-- which a cast can give any value.
pub mod Checks
use gnsshat.Base.{ℕ, Bool, List, Option, ◌≡◌, ℤ, Bytes, length}

-- The processor's floating-point numbers, and the operations on them that the source uses.
pub record Floating : Type 1 where
  pub Real : Type 0
  -- `static_cast<int32_t>(x * factor)`, as the word that holds it.
  pub to_int32 : ℕ → Real → ℕ
  -- `static_cast<uint32_t>(x * factor)`.
  pub to_uint32 : ℕ → Real → ℕ
  -- The eight bytes of `x * factor`, of type `double`.
  pub double_bytes : ℕ → Real → Bytes
  -- `std::llround(x * factor)`.
  pub llround : ℕ → Real → ℤ
  -- `x > bound`, `x >= bound`, `x < bound` and `x <= bound`.
  pub above : Real → ℤ → Bool
  pub at_least : Real → ℤ → Bool
  pub below : Real → ℤ → Bool
  pub at_most : Real → ℤ → Bool
  pub length-double_bytes : (factor : ℕ) (x : Real) → length (double_bytes factor x) ≡ 8

pub record NavigationFilters : Type 0 where
  pub min_svs : Option ℕ
  pub max_svs : Option ℕ
  pub min_cno : Option ℕ
  pub min_elev : Option ℤ
  pub n_cno_thrs : Option ℕ
  pub cno_thrs : Option ℕ
  pub fix_mode : Option ℕ
  pub pdop_mask : Option ℕ
  pub tdop_mask : Option ℕ
  pub p_acc_mask : Option ℕ
  pub t_acc_mask : Option ℕ

pub record Geofence (Real : Type 0) : Type 0 where
  pub lat : Real
  pub lon : Real
  pub radius : Real

pub record Geofencing (Real : Type 0) : Type 0 where
  pub geofences : List (Geofence Real)
  pub confidence_level : ℕ
  pub pio_pin_polarity : Option ℕ

pub record Pulse (Real : Type 0) : Type 0 where
  pub frequency : ℕ
  pub pulse_width : Real

pub record TimepulsePinConfig (Real : Type 0) : Type 0 where
  pub active : Bool
  pub fixed_pulse : Pulse Real
  pub pulse_when_no_fix : Option (Pulse Real)
  pub polarity : ℕ

pub data Position (Real : Type 0) : Type 0 where
  ecef : (x y z : Real) → Position Real
  lla : (latitude longitude height : Real) → Position Real

pub data BaseConfig (Real : Type 0) : Type 0 where
  survey_in : (minimum_observation_time : ℕ) (required_position_accuracy : Real) → BaseConfig Real
  fixed_position : (position : Position Real) (position_accuracy : Real) → BaseConfig Real

pub record TimingConfig (Real : Type 0) : Type 0 where
  pub enable_time_mark : Bool
  pub time_base : Option (BaseConfig Real)

pub data RtkMode : Type 0 where
  base : RtkMode
  rover : RtkMode

pub record RtkConfig (Real : Type 0) : Type 0 where
  pub mode : RtkMode
  pub base_config : Option (BaseConfig Real)

pub record GnssConfig (Real : Type 0) : Type 0 where
  pub measurement_rate : ℕ
  pub dynamic_model : ℕ
  pub timepulse_pin_config : TimepulsePinConfig Real
  pub geofencing : Option (Geofencing Real)
  pub rtk : Option (RtkConfig Real)
  pub timing : Option (TimingConfig Real)
  pub navigation_filters : Option NavigationFilters
  pub save_to_flash : Bool
