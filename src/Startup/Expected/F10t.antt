-- ===== src/Startup/Expected/F10t.antt =====
-- `F10TStartup` of src/ublox/Startup.cpp: the keys of its groups and its expected values.
use gnsshat.Base.{ℕ, ◌≡◌, refl, true, Option, none, some, List, All, arith}
use gnsshat.Config.{Floating, BaseConfig, survey_in, fixed_position, ecef, lla, GnssConfig}
use gnsshat.Messages.KeySizes.Widths.{stated_size}
use gnsshat.Settings.{keys_of}
use gnsshat.Settings.Laws.{Has, AllPairs, AllPairs-append, assign_all-AllPairs, assign_all-Has_keys}
use gnsshat.Startup.Defaults.{default_expected_config_values}
use gnsshat.Startup.Expected.{
  Fits, IsExpected, groups-IsExpected, defaults_fit, has_all, has_all-Has,
}
use gnsshat.Startup.Expected.M9n.{All-keys_of-append, All-assign_all-Has}
use gnsshat.Startup.Expected.Widths.{
  rate-AllPairs, navigation_filters-AllPairs, timepulse-AllPairs, base_config-AllPairs,
}
use gnsshat.Startup.Groups.{uart1_keys, prt_out_proto_keys, msg_cfg_keys}
use gnsshat.Startup.Registers.{
  rate_to_registers, timepulse_to_registers, navigation_filters_to_registers,
}
use gnsshat.Startup.Strategies.{
  f10t_registers, f10t_expected, f10t_groups, tmode_registers, tmode_keys, time_base_of,
  signal_registers,
}

module _ (F : Floating) where
  pub tmode-AllPairs :
      (config : Option (BaseConfig F.Real)) → AllPairs Fits (tmode_registers F config)
  unfolding stated_size
  tmode-AllPairs none = ((refl, omega arith), tt)
  tmode-AllPairs (some config) = base_config-AllPairs F config

  -- The keys that are configured for a base are those that were assigned, in another order.
  pub tmode_keys_lem :
      (P : ℕ → Type 0) (config : Option (BaseConfig F.Real))
      → All P (keys_of (tmode_registers F config))
      → All P (tmode_keys F config)
  tmode_keys_lem P none h = h
  tmode_keys_lem P (some (survey_in time accuracy)) h = h
  tmode_keys_lem P (some (fixed_position (ecef x y z) accuracy)) (m, (a, (p, rest))) =
      (m, (p, (a, rest)))
  tmode_keys_lem P (some (fixed_position (lla x y z) accuracy)) (m, (a, (p, rest))) =
      (m, (p, (a, rest)))

  module _ (config : GnssConfig F.Real) where
    f10t-AllPairs : AllPairs Fits (f10t_registers F config)
    unfolding stated_size
    f10t-AllPairs =
        AllPairs-append Fits (rate_to_registers config.measurement_rate) _
          (rate-AllPairs config.measurement_rate)
          (AllPairs-append Fits (timepulse_to_registers F config.timepulse_pin_config) _
            (timepulse-AllPairs F config.timepulse_pin_config)
            (AllPairs-append Fits (navigation_filters_to_registers config.navigation_filters)
              (signal_registers F config.timing)
              (navigation_filters-AllPairs config.navigation_filters)
              (
                (refl, omega arith),
                (
                  (refl, omega arith),
                  ((refl, omega arith), tmode-AllPairs (time_base_of F config.timing)),
                ),
              )))

    f10t_expected-AllPairs : AllPairs Fits (f10t_expected F config)
    f10t_expected-AllPairs =
        assign_all-AllPairs Fits default_expected_config_values (f10t_registers F config)
          f10t-AllPairs defaults_fit

    static :
        (keys : List ℕ)
        → has_all default_expected_config_values keys ≡ true
        → All (Has (f10t_expected F config)) keys
    static keys e =
        All-assign_all-Has default_expected_config_values (f10t_registers F config) keys
          (has_all-Has default_expected_config_values keys e)

    f10t-Has : All (All (Has (f10t_expected F config))) (f10t_groups F config)
    unfolding has_all
    f10t-Has =
        let H : ℕ → Type 0 = Has (f10t_expected F config) in
        let configured =
          assign_all-Has_keys default_expected_config_values (f10t_registers F config) in
        let (rates, behind_rates) =
          All-keys_of-append H (rate_to_registers config.measurement_rate) _ configured in
        let (pulses, behind_pulses) =
          All-keys_of-append H (timepulse_to_registers F config.timepulse_pin_config) _
            behind_rates in
        let (filters, (l5, (health, (mark, tmode)))) =
          All-keys_of-append H (navigation_filters_to_registers config.navigation_filters)
            (signal_registers F config.timing) behind_pulses in
        (
          static uart1_keys refl,
          (
            static prt_out_proto_keys refl,
            (
              (l5, (health, tt)),
              (
                filters,
                (
                  static msg_cfg_keys refl,
                  (tmode_keys_lem H (time_base_of F config.timing) tmode, tt),
                ),
              ),
            ),
          ),
        )

    -- For every configuration, each key that the startup of an F10T configures has an expected
    -- value, and it has the size that the key states.
    pub f10t-IsExpected : All (All (IsExpected (f10t_expected F config))) (f10t_groups F config)
    f10t-IsExpected =
        groups-IsExpected (f10t_expected F config) (f10t_groups F config) f10t_expected-AllPairs
          f10t-Has
