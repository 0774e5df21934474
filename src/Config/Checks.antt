-- ===== src/Config/Checks.antt =====
-- The checks of a configuration: src/ublox/GnssConfig.cpp and src/ublox/BaseConfig.cpp. What they
-- print is left out.
pub mod Accepted
use gnsshat.Base.{
  ℕ, Bool, true, false, not, ◌&&◌, ◌||◌, List, [], ◌∷◌, Option, none, some, ltb, ◌==◌,
  if◌then◌else◌, ℤ, pos, negsuc, ltb_int, length,
}
use gnsshat.Config.{
  Floating, NavigationFilters, Geofence, Geofencing, Pulse, TimepulsePinConfig, Position, ecef, lla,
  BaseConfig, survey_in, fixed_position, TimingConfig,
}

unfoldable pub check_measurement_rate : ℕ → Bool
check_measurement_rate rate = if ltb 25 rate || ltb rate 1 then false else true

-- A value outside 3 to 32.
abbrev pub refuses_svs : Option ℕ → Bool
refuses_svs none = false
refuses_svs (some v) = ltb v 3 || ltb 32 v

abbrev pub inverted : Option ℕ → Option ℕ → Bool
inverted (some least) (some most) = ltb most least
inverted _ _ = false

abbrev pub exceeds : ℕ → Option ℕ → Bool
exceeds bound none = false
exceeds bound (some v) = ltb bound v

abbrev pub refuses_elevation : Option ℤ → Bool
refuses_elevation none = false
refuses_elevation (some v) = ltb_int v (negsuc 89) || ltb_int (pos 90) v

abbrev pub refuses_fix_mode : Option ℕ → Bool
refuses_fix_mode none = false
refuses_fix_mode (some v) = not (v == 1) && not (v == 2) && not (v == 3)

unfoldable pub check_navigation_filters : Option NavigationFilters → Bool
check_navigation_filters none = true
check_navigation_filters (some filters) =
    if refuses_svs filters.min_svs
    then false
    else if refuses_svs filters.max_svs
    then false
    else if inverted filters.min_svs filters.max_svs
    then false
    else if exceeds 63 filters.min_cno
    then false
    else if exceeds 63 filters.cno_thrs
    then false
    else if refuses_elevation filters.min_elev
    then false
    else if refuses_fix_mode filters.fix_mode
    then false
    else if exceeds 9999 filters.pdop_mask
    then false
    else if exceeds 9999 filters.tdop_mask
    then false
    else true

module _ (F : Floating) where
  unfoldable pub check_position : Position F.Real → Bool
  check_position (ecef x y z) = true
  check_position (lla latitude longitude height) =
      if F.below latitude (negsuc 89) || F.above latitude (pos 90)
      then false
      else if F.below longitude (negsuc 179) || F.above longitude (pos 180)
      then false
      else true

  unfoldable pub check_base_config : BaseConfig F.Real → Bool
  check_base_config (survey_in time accuracy) =
      if time == 0 then false else if F.at_most accuracy (pos 0) then false else true
  check_base_config (fixed_position position accuracy) =
      if F.at_most accuracy (pos 0) then false else check_position position

  -- The check of the time base when there is one.
  abbrev pub check_time_base : Option (BaseConfig F.Real) → Bool
  check_time_base none = true
  check_time_base (some time_base) = check_base_config time_base

  abbrev pub has_time_base : Option (BaseConfig F.Real) → Bool
  has_time_base none = false
  has_time_base (some time_base) = true

  unfoldable pub check_timing : Option (TimingConfig F.Real) → Bool
  check_timing none = true
  check_timing (some timing) =
      if not timing.enable_time_mark && not (has_time_base timing.time_base)
      then false
      else check_time_base timing.time_base

  abbrev pub refuses_pulse : Pulse F.Real → Bool
  refuses_pulse pulse = F.below pulse.pulse_width (pos 0) || F.at_least pulse.pulse_width (pos 1)

  abbrev pub check_no_fix : Option (Pulse F.Real) → Bool
  check_no_fix none = true
  check_no_fix (some pulse) = if refuses_pulse pulse then false else true

  unfoldable pub check_timepulse_pin_config : TimepulsePinConfig F.Real → Bool
  check_timepulse_pin_config config =
      if not config.active
      then true
      else if refuses_pulse config.fixed_pulse
      then false
      else check_no_fix config.pulse_when_no_fix

  abbrev pub check_geofence : Geofence F.Real → Bool
  check_geofence fence =
      if F.above fence.lat (pos 90) || F.below fence.lat (negsuc 89)
      then false
      else if F.above fence.lon (pos 180) || F.below fence.lon (negsuc 179)
      then false
      else if F.at_most fence.radius (pos 0)
      then false
      else true

  -- The loop over the geofences.
  abbrev pub check_geofences : List (Geofence F.Real) → Bool
  check_geofences [] = true
  check_geofences (fence ∷ fences) = check_geofence fence && check_geofences fences

  unfoldable pub check_geofencing : Option (Geofencing F.Real) → Bool
  check_geofencing none = true
  check_geofencing (some geofencing) =
      if ltb 5 geofencing.confidence_level
      then false
      else if length geofencing.geofences == 0
      then false
      else if ltb 4 (length geofencing.geofences)
      then false
      else check_geofences geofencing.geofences
