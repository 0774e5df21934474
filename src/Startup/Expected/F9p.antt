-- ===== src/Startup/Expected/F9p.antt =====
-- `F9PStartup` of src/ublox/Startup.cpp: the keys of its groups and its expected values.
use gnsshat.Base.{ℕ, ◌≡◌, refl, true, Option, none, some, List, [], ◌∷◌, ◌++◌, All, arith}
use gnsshat.Config.{Floating, BaseConfig, GnssConfig, RtkConfig}
use gnsshat.Messages.KeySizes.Widths.{stated_size}
use gnsshat.Settings.{Settings, assign_all}
use gnsshat.Settings.Laws.{Has, AllPairs, assign_all-AllPairs, assign_all-Has_keys}
use gnsshat.Startup.Defaults.{default_expected_config_values}
use gnsshat.Startup.Expected.{Fits, IsExpected, groups-IsExpected, has_all, has_all-Has}
use gnsshat.Startup.Expected.M9n.{All-assign_all-Has, m9n_expected-AllPairs, m9n-Has}
use gnsshat.Startup.Expected.F10t.{tmode-AllPairs, tmode_keys_lem}
use gnsshat.Startup.Groups.{uart2_keys, uart2_prot_out_keys, rtcm3_msg_keys, uart2_prot_in_keys}
use gnsshat.Startup.Strategies.{
  m9n_expected, m9n_groups, m9n_registers, f9p_registers, f9p_expected, f9p_groups, f9p_own_groups,
  rtk_base_of, rtk_groups,
}

groups-append :
    (P : ℕ → Type 0) (xs ys : List (List ℕ))
    → All (All P) xs
    → All (All P) ys
    → All (All P) (xs ++ ys)
groups-append P [] ys h k = k
groups-append P (x ∷ xs) ys (h, hs) k = (h, groups-append P xs ys hs k)

groups-assign_all :
    (settings cfgs : Settings) (groups : List (List ℕ))
    → All (All (Has settings)) groups
    → All (All (Has (assign_all settings cfgs))) groups
groups-assign_all settings cfgs [] h = tt
groups-assign_all settings cfgs (keys ∷ groups) (h, hs) =
    (All-assign_all-Has settings cfgs keys h, groups-assign_all settings cfgs groups hs)

module _ (F : Floating) (config : GnssConfig F.Real) where
  f9p-AllPairs : AllPairs Fits (f9p_registers F config)
  unfolding stated_size
  f9p-AllPairs = (
    (refl, omega arith),
    (
      (refl, omega arith),
      (
        (refl, omega arith),
        (
          (refl, omega arith),
          ((refl, omega arith), ((refl, omega arith), tmode-AllPairs F (rtk_base_of F config.rtk))),
        ),
      ),
    ),
  )

  f9p_expected-AllPairs : AllPairs Fits (f9p_expected F config)
  f9p_expected-AllPairs =
      assign_all-AllPairs Fits (m9n_expected F config) (f9p_registers F config) f9p-AllPairs
        (m9n_expected-AllPairs F config)

  static :
      (keys : List ℕ)
      → has_all default_expected_config_values keys ≡ true
      → All (Has (f9p_expected F config)) keys
  static keys e = All-assign_all-Has (m9n_expected F config) (f9p_registers F config) keys (
      All-assign_all-Has default_expected_config_values (m9n_registers F config) keys
        (has_all-Has default_expected_config_values keys e))

  rtk-Has :
      (rtk : Option (RtkConfig F.Real)) (time_base : Option (BaseConfig F.Real))
      → All (All (Has (f9p_expected F config))) (rtk_groups F rtk time_base)
  unfolding has_all
  rtk-Has none time_base = tt
  rtk-Has (some rtk) none = (static uart2_prot_in_keys refl, tt)
  rtk-Has (some rtk) (some time_base) =
      (static uart2_prot_out_keys refl, (static rtcm3_msg_keys refl, tt))

  f9p-Has : All (All (Has (f9p_expected F config))) (f9p_groups F config)
  unfolding has_all
  f9p-Has =
      let H : ℕ → Type 0 = Has (f9p_expected F config) in
      let (l5, (health, (rtcm, (spartn, (out, (sys, tmode)))))) =
        assign_all-Has_keys (m9n_expected F config) (f9p_registers F config) in
      groups-append H (m9n_groups F config) (f9p_own_groups F config)
        (groups-assign_all (m9n_expected F config) (f9p_registers F config) (m9n_groups F config)
          (m9n-Has F config))
        (
          (l5, (health, tt)),
          (
            (rtcm, (spartn, (out, tt))),
            (
              (sys, tt),
              (
                static uart2_keys refl,
                (
                  tmode_keys_lem F H (rtk_base_of F config.rtk) tmode,
                  rtk-Has config.rtk (rtk_base_of F config.rtk),
                ),
              ),
            ),
          ),
        )

  -- For every configuration, each key that the startup of an F9P configures, those of an M9N
  -- included, has an expected value, and it has the size that the key states.
  pub f9p-IsExpected : All (All (IsExpected (f9p_expected F config))) (f9p_groups F config)
  f9p-IsExpected =
      groups-IsExpected (f9p_expected F config) (f9p_groups F config) f9p_expected-AllPairs f9p-Has
