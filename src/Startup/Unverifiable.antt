-- ===== src/Startup/Unverifiable.antt =====
-- The keys that src/ublox/Startup.cpp asks the receiver for against the table that reads its
-- answers, and the groups of an F10T against its configuration.
use gnsshat.Base.{
  ℕ, ◌≡◌, refl, ◌↔◌, Bool, false, List, [], ◌∷◌, ◌++◌, Option, none, some, ◌==◌, ◌||◌, All, Bytes,
  ok, err, to_le, word, unknown_key_size,
}
use gnsshat.Config.{
  Floating, NavigationFilters, BaseConfig, survey_in, fixed_position, ecef, lla, GnssConfig,
}
use gnsshat.Messages.KeySizes.{get_key_size}
use gnsshat.Messages.Keys.{
  cfg_rate_meas, cfg_rate_nav, cfg_rate_timeref, cfg_tp_tp1_ena, cfg_tp_pulse_def,
  cfg_tp_pulse_length_def, cfg_tp_freq_tp1, cfg_tp_freq_lock_tp1, cfg_tp_duty_tp1,
  cfg_tp_duty_lock_tp1, cfg_tp_ant_cabledelay, cfg_tp_user_delay_tp1, cfg_tp_pol_tp1,
  cfg_tp_timegrid_tp1, cfg_navspg_infil_minsvs, cfg_navspg_infil_maxsvs, cfg_navspg_infil_mincno,
  cfg_navspg_infil_minelev, cfg_navspg_infil_ncnothrs, cfg_navspg_infil_cnothrs, cfg_navspg_fixmode,
  cfg_navspg_outfil_pdop, cfg_navspg_outfil_tdop, cfg_navspg_outfil_pacc, cfg_navspg_outfil_tacc,
}
use gnsshat.Settings.{Settings, keys_of}
use gnsshat.Startup.Expected.M9n.{All-keys_of-append}
use gnsshat.Startup.Registers.{given, navigation_filters_to_registers}
use gnsshat.Startup.Strategies.{f10t_groups, tmode_keys, time_base_of}

-- The table of key sizes has the key.
abbrev pub IsKnown : ℕ → Type 0
IsKnown key = (size : ℕ) × (get_key_size key ≡ ok size)

given-All :
    {A : Type 0} (P : ℕ → Type 0) (key : ℕ) (bytes : A → Bytes) (o : Option A)
    → P key
    → All P (keys_of (given key bytes o))
given-All P key bytes none p = tt
given-All P key bytes (some a) p = (p, tt)

given-none :
    {A : Type 0} (P : ℕ → Type 0) (key : ℕ) (bytes : A → Bytes) (o : Option A)
    → ¬ P key
    → All P (keys_of (given key bytes o))
    → o ≡ none
given-none P key bytes none wrong h = refl
given-none P key bytes (some a) wrong (h, _) = absurd (wrong h)

none-given :
    {A : Type 0} (P : ℕ → Type 0) (key : ℕ) (bytes : A → Bytes) (o : Option A)
    → o ≡ none
    → All P (keys_of (given key bytes o))
none-given P key bytes none e = tt
none-given P key bytes (some a) e = absurd cc

All-append_keys :
    (P : ℕ → Type 0) (cfgs more : Settings)
    → All P (keys_of cfgs)
    → All P (keys_of more)
    → All P (keys_of (cfgs ++ more))
All-append_keys P [] more h k = k
All-append_keys P (cfg ∷ cfgs) more (h, hs) k = (h, All-append_keys P cfgs more hs k)

-- None of the filters is given whose keys the table lacks.
abbrev pub AreReadable : NavigationFilters → Type 0
AreReadable filters =
    (filters.fix_mode ≡ none)
    × (filters.pdop_mask ≡ none)
    × (filters.tdop_mask ≡ none)
    × (filters.p_acc_mask ≡ none)
    × (filters.t_acc_mask ≡ none)

unknown : (key : ℕ) → get_key_size key ≡ err (unknown_key_size key) → ¬ IsKnown key
unknown key e (size, f) = cc

-- The table of key sizes has every key that the navigation filters are configured by exactly when
-- the fix mode and the four output masks are not given.
pub navigation_filters-IsKnown :
    (filters : NavigationFilters)
    → All IsKnown (keys_of (navigation_filters_to_registers (some filters))) ↔ AreReadable filters
unfolding get_key_size
navigation_filters-IsKnown filters = (
  (λ h.
      let (h0, r0) =
        All-keys_of-append IsKnown (given cfg_navspg_infil_minsvs (to_le 1) filters.min_svs) _ h in
      let (h1, r1) =
        All-keys_of-append IsKnown (given cfg_navspg_infil_maxsvs (to_le 1) filters.max_svs) _ r0 in
      let (h2, r2) =
        All-keys_of-append IsKnown (given cfg_navspg_infil_mincno (to_le 1) filters.min_cno) _ r1 in
      let (h3, r3) =
        All-keys_of-append IsKnown
          (given cfg_navspg_infil_minelev (λ v. word 8 v ∷ []) filters.min_elev) _ r2 in
      let (h4, r4) =
        All-keys_of-append IsKnown (given cfg_navspg_infil_ncnothrs (to_le 1) filters.n_cno_thrs) _
          r3 in
      let (h5, r5) =
        All-keys_of-append IsKnown (given cfg_navspg_infil_cnothrs (to_le 1) filters.cno_thrs) _
          r4 in
      let (h6, r6) =
        All-keys_of-append IsKnown (given cfg_navspg_fixmode (to_le 1) filters.fix_mode) _ r5 in
      let (h7, r7) =
        All-keys_of-append IsKnown (given cfg_navspg_outfil_pdop (to_le 2) filters.pdop_mask) _
          r6 in
      let (h8, r8) =
        All-keys_of-append IsKnown (given cfg_navspg_outfil_tdop (to_le 2) filters.tdop_mask) _
          r7 in
      let (h9, r9) =
        All-keys_of-append IsKnown (given cfg_navspg_outfil_pacc (to_le 2) filters.p_acc_mask) _
          r8 in
      (
        given-none IsKnown cfg_navspg_fixmode (to_le 1) filters.fix_mode
            (unknown cfg_navspg_fixmode refl) h6,
        given-none IsKnown cfg_navspg_outfil_pdop (to_le 2) filters.pdop_mask
            (unknown cfg_navspg_outfil_pdop refl) h7,
        given-none IsKnown cfg_navspg_outfil_tdop (to_le 2) filters.tdop_mask
            (unknown cfg_navspg_outfil_tdop refl) h8,
        given-none IsKnown cfg_navspg_outfil_pacc (to_le 2) filters.p_acc_mask
            (unknown cfg_navspg_outfil_pacc refl) h9,
        given-none IsKnown cfg_navspg_outfil_tacc (to_le 2) filters.t_acc_mask
            (unknown cfg_navspg_outfil_tacc refl) r9,
      )),
  (λ (fix, pdop, tdop, p_acc, t_acc).
      All-append_keys IsKnown (given cfg_navspg_infil_minsvs (to_le 1) filters.min_svs) _
        (given-All IsKnown cfg_navspg_infil_minsvs (to_le 1) filters.min_svs (1, refl))
        (All-append_keys IsKnown (given cfg_navspg_infil_maxsvs (to_le 1) filters.max_svs) _
          (given-All IsKnown cfg_navspg_infil_maxsvs (to_le 1) filters.max_svs (1, refl))
          (All-append_keys IsKnown (given cfg_navspg_infil_mincno (to_le 1) filters.min_cno) _
            (given-All IsKnown cfg_navspg_infil_mincno (to_le 1) filters.min_cno (1, refl))
            (All-append_keys IsKnown
              (given cfg_navspg_infil_minelev (λ v. word 8 v ∷ []) filters.min_elev) _
              (given-All IsKnown cfg_navspg_infil_minelev (λ v. word 8 v ∷ []) filters.min_elev
                (1, refl))
              (All-append_keys IsKnown
                (given cfg_navspg_infil_ncnothrs (to_le 1) filters.n_cno_thrs) _
                (given-All IsKnown cfg_navspg_infil_ncnothrs (to_le 1) filters.n_cno_thrs (1, refl))
                (All-append_keys IsKnown (given cfg_navspg_infil_cnothrs (to_le 1) filters.cno_thrs)
                  _
                  (given-All IsKnown cfg_navspg_infil_cnothrs (to_le 1) filters.cno_thrs (1, refl))
                  (All-append_keys IsKnown (given cfg_navspg_fixmode (to_le 1) filters.fix_mode) _
                    (none-given IsKnown cfg_navspg_fixmode (to_le 1) filters.fix_mode fix)
                    (All-append_keys IsKnown
                      (given cfg_navspg_outfil_pdop (to_le 2) filters.pdop_mask) _
                      (none-given IsKnown cfg_navspg_outfil_pdop (to_le 2) filters.pdop_mask pdop)
                      (All-append_keys IsKnown
                        (given cfg_navspg_outfil_tdop (to_le 2) filters.tdop_mask) _
                        (none-given IsKnown cfg_navspg_outfil_tdop (to_le 2) filters.tdop_mask tdop)
                        (All-append_keys IsKnown
                          (given cfg_navspg_outfil_pacc (to_le 2) filters.p_acc_mask) _
                          (none-given IsKnown cfg_navspg_outfil_pacc (to_le 2) filters.p_acc_mask
                            p_acc)
                          (none-given IsKnown cfg_navspg_outfil_tacc (to_le 2) filters.t_acc_mask
                            t_acc))))))))))),
)

-- A key is not one of a list.
abbrev pub is_in : ℕ → List ℕ → Bool
is_in key [] = false
is_in key (k ∷ keys) = (k == key) || is_in key keys

-- The registers of the measurement rate and of the time pulse.
abbrev pub rate_and_timepulse_keys : List ℕ
rate_and_timepulse_keys =
    cfg_rate_meas ∷ cfg_rate_nav ∷ cfg_rate_timeref ∷ cfg_tp_tp1_ena ∷ cfg_tp_pulse_def
    ∷ cfg_tp_pulse_length_def ∷ cfg_tp_freq_tp1 ∷ cfg_tp_freq_lock_tp1 ∷ cfg_tp_duty_tp1
    ∷ cfg_tp_duty_lock_tp1 ∷ cfg_tp_ant_cabledelay ∷ cfg_tp_user_delay_tp1 ∷ cfg_tp_pol_tp1
    ∷ cfg_tp_timegrid_tp1 ∷ []

abbrev pub IsElsewhere : ℕ → Type 0
IsElsewhere key = is_in key rate_and_timepulse_keys ≡ false

filters-IsElsewhere :
    (filters : Option NavigationFilters)
    → All IsElsewhere (keys_of (navigation_filters_to_registers filters))
filters-IsElsewhere none = tt
filters-IsElsewhere (some filters) =
    All-append_keys IsElsewhere (given cfg_navspg_infil_minsvs (to_le 1) filters.min_svs) _
      (given-All IsElsewhere cfg_navspg_infil_minsvs (to_le 1) filters.min_svs refl)
      (All-append_keys IsElsewhere (given cfg_navspg_infil_maxsvs (to_le 1) filters.max_svs) _
        (given-All IsElsewhere cfg_navspg_infil_maxsvs (to_le 1) filters.max_svs refl)
        (All-append_keys IsElsewhere (given cfg_navspg_infil_mincno (to_le 1) filters.min_cno) _
          (given-All IsElsewhere cfg_navspg_infil_mincno (to_le 1) filters.min_cno refl)
          (All-append_keys IsElsewhere
            (given cfg_navspg_infil_minelev (λ v. word 8 v ∷ []) filters.min_elev) _
            (given-All IsElsewhere cfg_navspg_infil_minelev (λ v. word 8 v ∷ []) filters.min_elev
              refl)
            (All-append_keys IsElsewhere
              (given cfg_navspg_infil_ncnothrs (to_le 1) filters.n_cno_thrs) _
              (given-All IsElsewhere cfg_navspg_infil_ncnothrs (to_le 1) filters.n_cno_thrs refl)
              (All-append_keys IsElsewhere
                (given cfg_navspg_infil_cnothrs (to_le 1) filters.cno_thrs) _
                (given-All IsElsewhere cfg_navspg_infil_cnothrs (to_le 1) filters.cno_thrs refl)
                (All-append_keys IsElsewhere (given cfg_navspg_fixmode (to_le 1) filters.fix_mode) _
                  (given-All IsElsewhere cfg_navspg_fixmode (to_le 1) filters.fix_mode refl)
                  (All-append_keys IsElsewhere
                    (given cfg_navspg_outfil_pdop (to_le 2) filters.pdop_mask) _
                    (given-All IsElsewhere cfg_navspg_outfil_pdop (to_le 2) filters.pdop_mask refl)
                    (All-append_keys IsElsewhere
                      (given cfg_navspg_outfil_tdop (to_le 2) filters.tdop_mask) _
                      (given-All IsElsewhere cfg_navspg_outfil_tdop (to_le 2) filters.tdop_mask
                        refl)
                      (All-append_keys IsElsewhere
                        (given cfg_navspg_outfil_pacc (to_le 2) filters.p_acc_mask) _
                        (given-All IsElsewhere cfg_navspg_outfil_pacc (to_le 2) filters.p_acc_mask
                          refl)
                        (given-All IsElsewhere cfg_navspg_outfil_tacc (to_le 2) filters.t_acc_mask
                          refl))))))))))

module _ (F : Floating) where
  tmode-IsElsewhere : (config : Option (BaseConfig F.Real)) → All IsElsewhere (tmode_keys F config)
  tmode-IsElsewhere none = (refl, tt)
  tmode-IsElsewhere (some (survey_in time accuracy)) = (refl, (refl, (refl, tt)))
  tmode-IsElsewhere (some (fixed_position (ecef x y z) accuracy)) =
      (refl, (refl, (refl, (refl, (refl, (refl, (refl, (refl, (refl, tt)))))))))
  tmode-IsElsewhere (some (fixed_position (lla x y z) accuracy)) =
      (refl, (refl, (refl, (refl, (refl, (refl, (refl, (refl, (refl, tt)))))))))

  -- Whatever the configuration, no key that the startup of an F10T configures is one of the
  -- measurement rate or of the time pulse.
  pub f10t-IsElsewhere : (config : GnssConfig F.Real) → All (All IsElsewhere) (f10t_groups F config)
  f10t-IsElsewhere config = (
    (refl, (refl, (refl, (refl, (refl, tt))))),
    (
      (refl, (refl, tt)),
      (
        (refl, (refl, tt)),
        (
          filters-IsElsewhere config.navigation_filters,
          (
            (refl, (refl, (refl, (refl, (refl, tt))))),
            (tmode-IsElsewhere (time_base_of F config.timing), tt),
          ),
        ),
      ),
    ),
  )
