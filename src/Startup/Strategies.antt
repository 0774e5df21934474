-- ===== src/Startup/Strategies.antt =====
-- `M9NStartup`, `F10TStartup` and `F9PStartup` of src/ublox/Startup.cpp: what their constructors
-- assign to `expectedConfigValues_`, and the groups of keys that `execute` hands to `configure`,
-- in order, when each of them succeeds.
use gnsshat.Base.{ℕ, List, [], ◌∷◌, ◌++◌, Option, none, some, if◌then◌else◌}
use gnsshat.Config.{
  Floating, Position, ecef, lla, BaseConfig, survey_in, fixed_position, TimingConfig, RtkConfig,
  RtkMode, base, rover, GnssConfig,
}
use gnsshat.Messages.Keys.{
  cfg_navspg_dynmodel, cfg_signal_gps_l5_ena, cfg_signal_l5_health_ovrd,
  cfg_msgout_ubx_tim_tm2_uart1, cfg_tmode_mode, cfg_spiinprot_rtcm3x, cfg_spiinprot_spartn,
  cfg_spioutprot_rtcm3x, cfg_msgout_ubx_mon_sys_spi, cfg_tmode_svin_min_dur,
  cfg_tmode_svin_acc_limit, cfg_tmode_fixed_pos_acc, cfg_tmode_pos_type, cfg_tmode_ecef_x,
  cfg_tmode_ecef_x_hp, cfg_tmode_ecef_y, cfg_tmode_ecef_y_hp, cfg_tmode_ecef_z, cfg_tmode_ecef_z_hp,
  cfg_tmode_lat, cfg_tmode_lat_hp, cfg_tmode_lon, cfg_tmode_lon_hp, cfg_tmode_height,
  cfg_tmode_height_hp,
}
use gnsshat.Settings.{Settings, assign_all, keys_of}
use gnsshat.Startup.Defaults.{default_expected_config_values}
use gnsshat.Startup.Geofences.{geofencing_to_registers}
use gnsshat.Startup.Groups.{
  spi_keys, spi_in_prot_keys, spi_out_prot_keys, tx_ready_keys, dyn_model_keys,
  geofence_common_keys, geofence_fence_keys, rate_keys, msgout_keys, uart1_keys, prt_out_proto_keys,
  l5_signal_keys, msg_cfg_keys, tmode_disable_key, spi_prot_f9p_keys, mon_sys_spi_keys, uart2_keys,
  uart2_prot_out_keys, rtcm3_msg_keys, uart2_prot_in_keys,
}
use gnsshat.Startup.Registers.{
  ◌≔◌, rate_to_registers, timepulse_to_registers, navigation_filters_to_registers,
  base_config_to_registers,
}

module _ (F : Floating) where
  -- `M9NStartup`.
  abbrev pub m9n_registers : GnssConfig F.Real → Settings
  m9n_registers config =
      (cfg_navspg_dynmodel ≔ (config.dynamic_model ∷ []))
      ∷ (rate_to_registers config.measurement_rate
          ++ (timepulse_to_registers F config.timepulse_pin_config
              ++ (navigation_filters_to_registers config.navigation_filters
                  ++ geofencing_to_registers F config.geofencing)))

  abbrev pub m9n_expected : GnssConfig F.Real → Settings
  m9n_expected config = assign_all default_expected_config_values (m9n_registers config)

  abbrev pub m9n_groups : GnssConfig F.Real → List (List ℕ)
  m9n_groups config =
      spi_keys
      ∷ spi_in_prot_keys
      ∷ spi_out_prot_keys
      ∷ tx_ready_keys
      ∷ dyn_model_keys
      ∷ keys_of (navigation_filters_to_registers config.navigation_filters)
      ∷ geofence_common_keys
      ∷ geofence_fence_keys
      ∷ rate_keys
      ∷ keys_of (timepulse_to_registers F config.timepulse_pin_config)
      ∷ msgout_keys
      ∷ []

  -- `baseConfig2Keys`.
  abbrev pub position_to_keys : Position F.Real → List ℕ
  position_to_keys (ecef x y z) =
      cfg_tmode_ecef_x ∷ cfg_tmode_ecef_x_hp ∷ cfg_tmode_ecef_y ∷ cfg_tmode_ecef_y_hp
      ∷ cfg_tmode_ecef_z ∷ cfg_tmode_ecef_z_hp ∷ []
  position_to_keys (lla latitude longitude height) =
      cfg_tmode_lat ∷ cfg_tmode_lat_hp ∷ cfg_tmode_lon ∷ cfg_tmode_lon_hp ∷ cfg_tmode_height
      ∷ cfg_tmode_height_hp ∷ []

  abbrev pub base_config_to_keys : BaseConfig F.Real → List ℕ
  base_config_to_keys (survey_in time accuracy) =
      cfg_tmode_mode ∷ cfg_tmode_svin_min_dur ∷ cfg_tmode_svin_acc_limit ∷ []
  base_config_to_keys (fixed_position position accuracy) =
      cfg_tmode_mode ∷ cfg_tmode_pos_type ∷ cfg_tmode_fixed_pos_acc ∷ position_to_keys position

  -- The time base of the timing configuration, or of the RTK configuration of a base.
  abbrev pub time_base_of : Option (TimingConfig F.Real) → Option (BaseConfig F.Real)
  time_base_of none = none
  time_base_of (some timing) = timing.time_base

  abbrev base_of : RtkMode → Option (BaseConfig F.Real) → Option (BaseConfig F.Real)
  base_of base config = config
  base_of rover config = none

  abbrev pub rtk_base_of : Option (RtkConfig F.Real) → Option (BaseConfig F.Real)
  rtk_base_of none = none
  rtk_base_of (some rtk) = base_of rtk.mode rtk.base_config

  abbrev pub tmode_registers : Option (BaseConfig F.Real) → Settings
  tmode_registers none = (cfg_tmode_mode ≔ (0 ∷ [])) ∷ []
  tmode_registers (some config) = base_config_to_registers F config

  abbrev pub tmode_keys : Option (BaseConfig F.Real) → List ℕ
  tmode_keys none = tmode_disable_key
  tmode_keys (some config) = base_config_to_keys config

  -- `F10TStartup`.
  abbrev time_mark : Option (TimingConfig F.Real) → ℕ
  time_mark none = 0
  time_mark (some timing) = if timing.enable_time_mark then 1 else 0

  -- What the constructor assigns behind the filters.
  abbrev pub signal_registers : Option (TimingConfig F.Real) → Settings
  signal_registers timing =
      (cfg_signal_gps_l5_ena ≔ (1 ∷ []))
      ∷ (cfg_signal_l5_health_ovrd ≔ (1 ∷ []))
      ∷ (cfg_msgout_ubx_tim_tm2_uart1 ≔ (time_mark timing ∷ []))
      ∷ tmode_registers (time_base_of timing)

  abbrev pub f10t_registers : GnssConfig F.Real → Settings
  f10t_registers config =
      rate_to_registers config.measurement_rate
      ++ (timepulse_to_registers F config.timepulse_pin_config
          ++ (navigation_filters_to_registers config.navigation_filters
              ++ signal_registers config.timing))

  abbrev pub f10t_expected : GnssConfig F.Real → Settings
  f10t_expected config = assign_all default_expected_config_values (f10t_registers config)

  abbrev pub f10t_groups : GnssConfig F.Real → List (List ℕ)
  f10t_groups config =
      uart1_keys
      ∷ prt_out_proto_keys
      ∷ l5_signal_keys
      ∷ keys_of (navigation_filters_to_registers config.navigation_filters)
      ∷ msg_cfg_keys
      ∷ tmode_keys (time_base_of config.timing)
      ∷ []

  -- `F9PStartup`: first what `M9NStartup` does.
  abbrev pub f9p_registers : GnssConfig F.Real → Settings
  f9p_registers config =
      (cfg_signal_gps_l5_ena ≔ (1 ∷ []))
      ∷ (cfg_signal_l5_health_ovrd ≔ (1 ∷ []))
      ∷ (cfg_spiinprot_rtcm3x ≔ (0 ∷ []))
      ∷ (cfg_spiinprot_spartn ≔ (0 ∷ []))
      ∷ (cfg_spioutprot_rtcm3x ≔ (0 ∷ []))
      ∷ (cfg_msgout_ubx_mon_sys_spi ≔ (1 ∷ []))
      ∷ tmode_registers (rtk_base_of config.rtk)

  abbrev pub f9p_expected : GnssConfig F.Real → Settings
  f9p_expected config = assign_all (m9n_expected config) (f9p_registers config)

  -- `rtkBaseStartup` for a base, `rtkRoverStartup` for a rover, neither without RTK.
  abbrev pub rtk_groups : Option (RtkConfig F.Real) → Option (BaseConfig F.Real) → List (List ℕ)
  rtk_groups none time_base = []
  rtk_groups (some rtk) none = uart2_prot_in_keys ∷ []
  rtk_groups (some rtk) (some time_base) = uart2_prot_out_keys ∷ rtcm3_msg_keys ∷ []

  abbrev pub f9p_own_groups : GnssConfig F.Real → List (List ℕ)
  f9p_own_groups config =
      l5_signal_keys
      ∷ spi_prot_f9p_keys
      ∷ mon_sys_spi_keys
      ∷ uart2_keys
      ∷ tmode_keys (rtk_base_of config.rtk)
      ∷ rtk_groups config.rtk (rtk_base_of config.rtk)

  abbrev pub f9p_groups : GnssConfig F.Real → List (List ℕ)
  f9p_groups config = m9n_groups config ++ f9p_own_groups config
