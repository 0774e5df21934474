-- ===== src/Startup/Registers.antt =====
-- The registers that a configuration asks for: `rate2Registers`, `timepulsePinConfig2Registers`,
-- `navigationFilters2Registers` and `baseConfig2Registers` of src/ublox/Startup.cpp, each as the
-- list of its assignments to `expectedConfigValues_`, in order.
use gnsshat.Base.{
  ℕ, ◌/◌, not, [], ◌∷◌, ◌++◌, Option, none, some, if◌then◌else◌, Bytes, to_le, ℤ, word, quotient,
  remainder,
}
use gnsshat.Config.{
  Floating, NavigationFilters, Pulse, TimepulsePinConfig, Position, ecef, lla, BaseConfig,
  survey_in, fixed_position,
}
use gnsshat.Messages.Keys.{
  cfg_rate_meas, cfg_rate_nav, cfg_rate_timeref, cfg_tp_tp1_ena, cfg_tp_pulse_def,
  cfg_tp_pulse_length_def, cfg_tp_freq_tp1, cfg_tp_freq_lock_tp1, cfg_tp_duty_tp1,
  cfg_tp_duty_lock_tp1, cfg_tp_ant_cabledelay, cfg_tp_user_delay_tp1, cfg_tp_pol_tp1,
  cfg_tp_timegrid_tp1, cfg_navspg_infil_minsvs, cfg_navspg_infil_maxsvs, cfg_navspg_infil_mincno,
  cfg_navspg_infil_minelev, cfg_navspg_infil_ncnothrs, cfg_navspg_infil_cnothrs, cfg_navspg_fixmode,
  cfg_navspg_outfil_pdop, cfg_navspg_outfil_tdop, cfg_navspg_outfil_pacc, cfg_navspg_outfil_tacc,
  cfg_tmode_mode, cfg_tmode_svin_min_dur, cfg_tmode_svin_acc_limit, cfg_tmode_fixed_pos_acc,
  cfg_tmode_pos_type, cfg_tmode_ecef_x, cfg_tmode_ecef_x_hp, cfg_tmode_ecef_y, cfg_tmode_ecef_y_hp,
  cfg_tmode_ecef_z, cfg_tmode_ecef_z_hp, cfg_tmode_lat, cfg_tmode_lat_hp, cfg_tmode_lon,
  cfg_tmode_lon_hp, cfg_tmode_height, cfg_tmode_height_hp,
}
use gnsshat.Messages.Pairs.{ConfigKeyValue}
use gnsshat.Settings.{Settings}

-- `ecv[key] = value`.
infix 6 ◌≔◌
abbrev pub ◌≔◌ : ℕ → Bytes → ConfigKeyValue
key ≔ value = record { key = key; value = value }

-- The rate is not 0: the source divides by it.
abbrev pub rate_to_registers : ℕ → Settings
rate_to_registers rate =
    (cfg_rate_meas ≔ to_le 2 (1000 / rate))
    ∷ (cfg_rate_nav ≔ to_le 2 1)
    ∷ (cfg_rate_timeref ≔ (0 ∷ []))
    ∷ []

-- A value of the filters that is given is assigned; its key is returned.
abbrev pub given {ℓ} : {A : Type ℓ} → ℕ → (A → Bytes) → Option A → Settings
given key bytes none = []
given key bytes (some value) = (key ≔ bytes value) ∷ []

-- The assignments; the keys returned are theirs, `keys_of`, in order.
abbrev pub navigation_filters_to_registers : Option NavigationFilters → Settings
navigation_filters_to_registers none = []
navigation_filters_to_registers (some filters) =
    given cfg_navspg_infil_minsvs (to_le 1) filters.min_svs
    ++ (given cfg_navspg_infil_maxsvs (to_le 1) filters.max_svs
        ++ (given cfg_navspg_infil_mincno (to_le 1) filters.min_cno
            ++ (given cfg_navspg_infil_minelev (λ v. word 8 v ∷ []) filters.min_elev
                ++ (given cfg_navspg_infil_ncnothrs (to_le 1) filters.n_cno_thrs
                    ++ (given cfg_navspg_infil_cnothrs (to_le 1) filters.cno_thrs
                        ++ (given cfg_navspg_fixmode (to_le 1) filters.fix_mode
                            ++ (given cfg_navspg_outfil_pdop (to_le 2) filters.pdop_mask
                                ++ (given cfg_navspg_outfil_tdop (to_le 2) filters.tdop_mask
                                    ++ (given cfg_navspg_outfil_pacc (to_le 2) filters.p_acc_mask
                                        ++ given cfg_navspg_outfil_tacc (to_le 2)
                                            filters.t_acc_mask)))))))))

module _ (F : Floating) where
  abbrev pub frequency_no_fix : Option (Pulse F.Real) → ℕ
  frequency_no_fix none = 0
  frequency_no_fix (some pulse) = pulse.frequency

  -- The bytes of `pulseWidth * 100.0`, or of 0.0.
  abbrev pub pulse_width_no_fix : Option (Pulse F.Real) → Bytes
  pulse_width_no_fix none = to_le 8 0
  pulse_width_no_fix (some pulse) = F.double_bytes 100 pulse.pulse_width

  abbrev pub active_to_registers : TimepulsePinConfig F.Real → Settings
  active_to_registers config =
      (cfg_tp_tp1_ena ≔ (1 ∷ []))
      ∷ (cfg_tp_pulse_def ≔ (1 ∷ []))
      ∷ (cfg_tp_pulse_length_def ≔ (0 ∷ []))
      ∷ (cfg_tp_freq_tp1 ≔ to_le 4 (frequency_no_fix config.pulse_when_no_fix))
      ∷ (cfg_tp_freq_lock_tp1 ≔ to_le 4 config.fixed_pulse.frequency)
      ∷ (cfg_tp_duty_tp1 ≔ pulse_width_no_fix config.pulse_when_no_fix)
      ∷ (cfg_tp_duty_lock_tp1 ≔ F.double_bytes 100 config.fixed_pulse.pulse_width)
      ∷ (cfg_tp_ant_cabledelay ≔ (0 ∷ 0 ∷ []))
      ∷ (cfg_tp_user_delay_tp1 ≔ (0 ∷ 0 ∷ 0 ∷ 0 ∷ []))
      ∷ (cfg_tp_pol_tp1 ≔ (config.polarity ∷ []))
      ∷ (cfg_tp_timegrid_tp1 ≔ (0 ∷ []))
      ∷ []

  -- The assignments; `timepulsePinConfigKeys_`, which starts with the first key, ends up with
  -- their keys.
  abbrev pub timepulse_to_registers : TimepulsePinConfig F.Real → Settings
  timepulse_to_registers config =
      if not config.active then (cfg_tp_tp1_ena ≔ (0 ∷ [])) ∷ [] else active_to_registers config

  -- A coordinate in units of which 100 make one of the register, as register and remainder.
  abbrev pub coordinate : ℕ → ℕ → ℤ → Settings
  coordinate key high_precision_key value =
      (key ≔ to_le 4 (word 32 (quotient value 100)))
      ∷ (high_precision_key ≔ to_le 1 (word 8 (remainder value 100)))
      ∷ []

  abbrev pub position_to_registers : Position F.Real → Settings
  position_to_registers (ecef x y z) =
      (cfg_tmode_pos_type ≔ (0 ∷ []))
      ∷ (coordinate cfg_tmode_ecef_x cfg_tmode_ecef_x_hp (F.llround 10000 x)
          ++ (coordinate cfg_tmode_ecef_y cfg_tmode_ecef_y_hp (F.llround 10000 y)
              ++ coordinate cfg_tmode_ecef_z cfg_tmode_ecef_z_hp (F.llround 10000 z)))
  position_to_registers (lla latitude longitude height) =
      (cfg_tmode_pos_type ≔ (1 ∷ []))
      ∷ (coordinate cfg_tmode_lat cfg_tmode_lat_hp (F.llround 1000000000 latitude)
          ++ (coordinate cfg_tmode_lon cfg_tmode_lon_hp (F.llround 1000000000 longitude)
              ++ coordinate cfg_tmode_height cfg_tmode_height_hp (F.llround 10000 height)))

  abbrev pub base_config_to_registers : BaseConfig F.Real → Settings
  base_config_to_registers (survey_in time accuracy) =
      (cfg_tmode_mode ≔ (1 ∷ []))
      ∷ (cfg_tmode_svin_min_dur ≔ to_le 4 time)
      ∷ (cfg_tmode_svin_acc_limit ≔ to_le 4 (F.to_uint32 10000 accuracy))
      ∷ []
  base_config_to_registers (fixed_position position accuracy) =
      (cfg_tmode_mode ≔ (2 ∷ []))
      ∷ (cfg_tmode_fixed_pos_acc ≔ to_le 4 (F.to_uint32 10000 accuracy))
      ∷ position_to_registers position
