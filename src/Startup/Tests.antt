-- ===== src/Startup/Tests.antt =====
-- Runs of the startup's decisions on concrete configurations, and the theorems applied to them.
use gnsshat.Base.{◌≡◌, refl, ◌↔◌, true, [], ◌∷◌, some, All, to_le, ok}
use gnsshat.Config.Checks.{check_navigation_filters}
use gnsshat.Config.Checks.Accepted.{AreAccepted, check_navigation_filters_iff}
use gnsshat.Messages.Keys.{cfg_rate_meas, cfg_rate_nav, cfg_rate_timeref}
use gnsshat.Settings.{Settings, assign_all, keys_of}
use gnsshat.Startup.Expected.{IsExpected}
use gnsshat.Startup.Expected.F10t.{f10t-IsExpected}
use gnsshat.Startup.Expected.F9p.{f9p-IsExpected}
use gnsshat.Startup.Groups.{rate_keys}
use gnsshat.Startup.Registers.{◌≔◌, navigation_filters_to_registers}
use gnsshat.Startup.Samples.{whole, filters, config}
use gnsshat.Startup.Strategies.{m9n_expected, f10t_expected, f10t_groups, f9p_expected, f9p_groups}
use gnsshat.Startup.Unverifiable.{
  IsKnown, AreReadable, IsElsewhere, navigation_filters-IsKnown, f10t-IsElsewhere,
}
use gnsshat.Startup.Verify.{verify_config, find_mismatches}
use gnsshat.Startup.Verify.Repair.{verify_config-assign_all}

f10t-IsExpected_example :
    All (All (IsExpected (f10t_expected whole config))) (f10t_groups whole config)
f10t-IsExpected_example = f10t-IsExpected whole config

f9p-IsExpected_example :
    All (All (IsExpected (f9p_expected whole config))) (f9p_groups whole config)
f9p-IsExpected_example = f9p-IsExpected whole config

f10t-IsElsewhere_example : All (All IsElsewhere) (f10t_groups whole config)
f10t-IsElsewhere_example = f10t-IsElsewhere whole config

navigation_filters-IsKnown_example :
    All IsKnown (keys_of (navigation_filters_to_registers (some filters))) ↔ AreReadable filters
navigation_filters-IsKnown_example = navigation_filters-IsKnown filters

check_navigation_filters_iff_example :
    (check_navigation_filters (some filters) ≡ true) ↔ AreAccepted filters
check_navigation_filters_iff_example = check_navigation_filters_iff filters

-- A receiver at 1 Hz that is to run at 5 Hz.
abbrev reported : Settings
reported =
    (cfg_rate_meas ≔ (0xE8 ∷ 0x03 ∷ []))
    ∷ (cfg_rate_nav ≔ (1 ∷ 0 ∷ []))
    ∷ (cfg_rate_timeref ≔ (0 ∷ []))
    ∷ []

abbrev rate_mismatch : Settings
rate_mismatch = (cfg_rate_meas ≔ (0xC8 ∷ 0x00 ∷ [])) ∷ []

mismatched : find_mismatches (m9n_expected whole config) reported rate_keys ≡ some rate_mismatch
unfolding find_mismatches to_le
mismatched = refl

verify_config-assign_all_example :
    verify_config (m9n_expected whole config) (assign_all reported rate_mismatch) rate_keys
    ≡ ok true
verify_config-assign_all_example =
    verify_config-assign_all (m9n_expected whole config) reported rate_keys rate_mismatch mismatched
