-- ===== src/Startup/Expected/M9n.antt =====
-- `M9NStartup` of src/ublox/Startup.cpp: the keys of its groups and its expected values.
use gnsshat.Base.{ℕ, ◌≡◌, refl, ap, true, Option, none, some, List, [], ◌∷◌, ◌++◌, All, arith}
use mathlib.Core.Path.{subst}
use gnsshat.Config.{Floating, Geofence, Geofencing, GnssConfig}
use gnsshat.Messages.KeySizes.Widths.{stated_size}
use gnsshat.Settings.{Settings, assign_all, keys_of}
use gnsshat.Settings.Laws.{
  Has, AllPairs, AllPairs-append, assign_all-AllPairs, assign_all-Has, assign_all-Has_keys,
}
use gnsshat.Startup.Defaults.{default_expected_config_values}
use gnsshat.Startup.Expected.{
  Fits, IsExpected, groups-IsExpected, defaults_fit, has_all, has_all-Has,
}
use gnsshat.Startup.Expected.Widths.{
  rate-AllPairs, navigation_filters-AllPairs, timepulse-AllPairs, geofencing-AllPairs,
}
use gnsshat.Startup.Geofences.{fence_keys, fences_to_registers, geofencing_to_registers}
use gnsshat.Startup.Groups.{
  spi_keys, spi_in_prot_keys, spi_out_prot_keys, tx_ready_keys, geofence_common_keys,
  geofence_fence_keys, msgout_keys,
}
use gnsshat.Startup.Registers.{
  rate_to_registers, timepulse_to_registers, navigation_filters_to_registers,
}
use gnsshat.Startup.Strategies.{m9n_registers, m9n_expected, m9n_groups}

-- The keys of assignments that follow one another.
module _ (P : ℕ → Type 0) where
  pub All-keys_of-append :
      (cfgs more : Settings)
      → All P (keys_of (cfgs ++ more))
      → All P (keys_of cfgs) × All P (keys_of more)
  All-keys_of-append [] more h = (tt, h)
  All-keys_of-append (cfg ∷ cfgs) more (h, hs) =
      let (left, right) = All-keys_of-append cfgs more hs in ((h, left), right)

  pub All-split : (xs ys : List ℕ) → All P (xs ++ ys) → All P xs × All P ys
  All-split [] ys h = (tt, h)
  All-split (x ∷ xs) ys (h, hs) = let (left, right) = All-split xs ys hs in ((h, left), right)

-- Assignments keep the keys that there are.
pub All-assign_all-Has :
    (settings cfgs : Settings) (keys : List ℕ)
    → All (Has settings) keys
    → All (Has (assign_all settings cfgs)) keys
All-assign_all-Has settings cfgs [] h = tt
All-assign_all-Has settings cfgs (key ∷ keys) (h, hs) =
    (assign_all-Has settings cfgs key h, All-assign_all-Has settings cfgs keys hs)

module _ (F : Floating) where
  -- The loop over the slots assigns the same keys, however many geofences there are.
  fences_keys :
      (fences : List (Geofence F.Real))
      → keys_of (fences_to_registers F fence_keys fences) ≡ geofence_fence_keys
  fences_keys [] = refl
  fences_keys (a ∷ []) = refl
  fences_keys (a ∷ b ∷ []) = refl
  fences_keys (a ∷ b ∷ c ∷ []) = refl
  fences_keys (a ∷ b ∷ c ∷ d ∷ fences) = refl

  given_geofence_keys :
      (level : ℕ) (polarity : Option ℕ) (fences : List (Geofence F.Real))
      → keys_of (
          geofencing_to_registers F (
            some (record {
              geofences = fences;
              confidence_level = level;
              pio_pin_polarity = polarity;
            })))
        ≡ geofence_common_keys ++ geofence_fence_keys
  given_geofence_keys level none fences =
      ap (λ keys. geofence_common_keys ++ keys) (fences_keys fences)
  given_geofence_keys level (some p) fences =
      ap (λ keys. geofence_common_keys ++ keys) (fences_keys fences)

  geofence_keys :
      (geofencing : Option (Geofencing F.Real))
      → keys_of (geofencing_to_registers F geofencing) ≡ geofence_common_keys ++ geofence_fence_keys
  geofence_keys none = refl
  geofence_keys (some g) = given_geofence_keys g.confidence_level g.pio_pin_polarity g.geofences

  module _ (config : GnssConfig F.Real) where
    pub m9n-AllPairs : AllPairs Fits (m9n_registers F config)
    unfolding stated_size
    m9n-AllPairs = (
      (refl, omega arith),
      AllPairs-append Fits (rate_to_registers config.measurement_rate) _
          (rate-AllPairs config.measurement_rate)
          (AllPairs-append Fits (timepulse_to_registers F config.timepulse_pin_config) _
            (timepulse-AllPairs F config.timepulse_pin_config)
            (AllPairs-append Fits (navigation_filters_to_registers config.navigation_filters) _
              (navigation_filters-AllPairs config.navigation_filters)
              (geofencing-AllPairs F config.geofencing))),
    )

    pub m9n_expected-AllPairs : AllPairs Fits (m9n_expected F config)
    m9n_expected-AllPairs =
        assign_all-AllPairs Fits default_expected_config_values (m9n_registers F config)
          m9n-AllPairs defaults_fit

    static :
        (keys : List ℕ)
        → has_all default_expected_config_values keys ≡ true
        → All (Has (m9n_expected F config)) keys
    static keys e =
        All-assign_all-Has default_expected_config_values (m9n_registers F config) keys
          (has_all-Has default_expected_config_values keys e)

    pub m9n-Has : All (All (Has (m9n_expected F config))) (m9n_groups F config)
    unfolding has_all
    m9n-Has =
        let H : ℕ → Type 0 = Has (m9n_expected F config) in
        let (dyn, configured) =
          assign_all-Has_keys default_expected_config_values (m9n_registers F config) in
        let (rates, behind_rates) =
          All-keys_of-append H (rate_to_registers config.measurement_rate) _ configured in
        let (pulses, behind_pulses) =
          All-keys_of-append H (timepulse_to_registers F config.timepulse_pin_config) _
            behind_rates in
        let (filters, fences) =
          All-keys_of-append H (navigation_filters_to_registers config.navigation_filters) _
            behind_pulses in
        let (common, slots) =
          All-split H geofence_common_keys geofence_fence_keys
            (subst (All H) (geofence_keys config.geofencing) fences) in
        (
          static spi_keys refl,
          (
            static spi_in_prot_keys refl,
            (
              static spi_out_prot_keys refl,
              (
                static tx_ready_keys refl,
                (
                  (dyn, tt),
                  (filters, (common, (slots, (rates, (pulses, (static msgout_keys refl, tt)))))),
                ),
              ),
            ),
          ),
        )

    -- For every configuration, each key that the startup of an M9N configures has an expected
    -- value, and it has the size that the key states.
    m9n-IsExpected : All (All (IsExpected (m9n_expected F config))) (m9n_groups F config)
    m9n-IsExpected =
        groups-IsExpected (m9n_expected F config) (m9n_groups F config) m9n_expected-AllPairs
          m9n-Has
