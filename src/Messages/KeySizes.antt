-- ===== src/Messages/KeySizes.antt =====
-- `ConfigKeySizeMap` of src/ublox/ubxmsg/UBX_CFG_VALGET.hpp and .cpp.
pub mod Widths
use gnsshat.Base.{ℕ, List, [], ◌∷◌, ◌==◌, if◌then◌else◌, Result, ok, err, unknown_key_size}
use gnsshat.Messages.Keys.{
  cfg_spi_maxff, cfg_spi_cpolarity, cfg_spi_cphase, cfg_spi_extendedtimeout, cfg_spi_enabled,
  cfg_spiinprot_ubx, cfg_spiinprot_nmea, cfg_spiinprot_rtcm3x, cfg_spiinprot_spartn,
  cfg_spioutprot_ubx, cfg_spioutprot_nmea, cfg_spioutprot_rtcm3x, cfg_uart1_enabled,
  cfg_uart1_baudrate, cfg_uart1_databits, cfg_uart1_parity, cfg_uart1_stopbits,
  cfg_uart1outprot_ubx, cfg_uart1outprot_nmea, cfg_uart2_enabled, cfg_uart2_baudrate,
  cfg_uart2_databits, cfg_uart2_parity, cfg_uart2_stopbits, cfg_uart2inprot_rtcm3x,
  cfg_uart2outprot_ubx, cfg_uart2outprot_nmea, cfg_uart2outprot_rtcm3x, cfg_txready_enabled,
  cfg_txready_polarity, cfg_txready_pin, cfg_txready_threshold, cfg_txready_interface,
  cfg_rate_meas, cfg_rate_nav, cfg_rate_timeref, cfg_navspg_dynmodel, cfg_navspg_infil_minsvs,
  cfg_navspg_infil_maxsvs, cfg_navspg_infil_mincno, cfg_navspg_infil_minelev,
  cfg_navspg_infil_ncnothrs, cfg_navspg_infil_cnothrs, cfg_tp_tp1_ena, cfg_tp_pulse_def,
  cfg_tp_pulse_length_def, cfg_tp_freq_tp1, cfg_tp_freq_lock_tp1, cfg_tp_duty_tp1,
  cfg_tp_duty_lock_tp1, cfg_tp_ant_cabledelay, cfg_tp_user_delay_tp1, cfg_tp_pol_tp1,
  cfg_tp_timegrid_tp1, cfg_msgout_ubx_mon_rf_uart1, cfg_msgout_ubx_mon_sys_uart1,
  cfg_msgout_ubx_nav_dop_uart1, cfg_msgout_ubx_nav_pvt_uart1, cfg_msgout_ubx_nav_sat_uart1,
  cfg_msgout_ubx_tim_tm2_uart1, cfg_msgout_ubx_mon_span_spi, cfg_msgout_ubx_mon_rf_spi,
  cfg_msgout_ubx_mon_sys_spi, cfg_msgout_ubx_nav_dop_spi, cfg_msgout_ubx_nav_pvt_spi,
  cfg_msgout_ubx_nav_sat_spi, cfg_msgout_ubx_nav_geofence_spi, cfg_msgout_rtcm_3x_type1005_uart2,
  cfg_msgout_rtcm_3x_type1074_uart2, cfg_msgout_rtcm_3x_type1077_uart2,
  cfg_msgout_rtcm_3x_type1084_uart2, cfg_msgout_rtcm_3x_type1087_uart2,
  cfg_msgout_rtcm_3x_type1094_uart2, cfg_msgout_rtcm_3x_type1097_uart2,
  cfg_msgout_rtcm_3x_type1124_uart2, cfg_msgout_rtcm_3x_type1127_uart2,
  cfg_msgout_rtcm_3x_type1230_uart2, cfg_geofence_conflvl, cfg_geofence_use_pio,
  cfg_geofence_pinpol, cfg_geofence_pin, cfg_geofence_use_fence1, cfg_geofence_fence1_lat,
  cfg_geofence_fence1_lon, cfg_geofence_fence1_rad, cfg_geofence_use_fence2,
  cfg_geofence_fence2_lat, cfg_geofence_fence2_lon, cfg_geofence_fence2_rad,
  cfg_geofence_use_fence3, cfg_geofence_fence3_lat, cfg_geofence_fence3_lon,
  cfg_geofence_fence3_rad, cfg_geofence_use_fence4, cfg_geofence_fence4_lat,
  cfg_geofence_fence4_lon, cfg_geofence_fence4_rad, cfg_tmode_mode, cfg_tmode_pos_type,
  cfg_tmode_ecef_x, cfg_tmode_ecef_y, cfg_tmode_ecef_z, cfg_tmode_ecef_x_hp, cfg_tmode_ecef_y_hp,
  cfg_tmode_ecef_z_hp, cfg_tmode_lat, cfg_tmode_lon, cfg_tmode_height, cfg_tmode_lat_hp,
  cfg_tmode_lon_hp, cfg_tmode_height_hp, cfg_tmode_fixed_pos_acc, cfg_tmode_svin_min_dur,
  cfg_tmode_svin_acc_limit, cfg_signal_gps_l5_ena, cfg_signal_gal_e5a_ena, cfg_signal_qzss_l5_ena,
  cfg_signal_l5_health_ovrd,
}

-- A row of the table: the key and the number of bytes of its value.
abbrev pub key_sizes : List (ℕ × ℕ)
key_sizes =
    (cfg_spi_maxff, 1)
    ∷ (cfg_spi_cpolarity, 1)
    ∷ (cfg_spi_cphase, 1)
    ∷ (cfg_spi_extendedtimeout, 1)
    ∷ (cfg_spi_enabled, 1)
    ∷ (cfg_spiinprot_ubx, 1)
    ∷ (cfg_spiinprot_nmea, 1)
    ∷ (cfg_spiinprot_rtcm3x, 1)
    ∷ (cfg_spiinprot_spartn, 1)
    ∷ (cfg_spioutprot_ubx, 1)
    ∷ (cfg_spioutprot_nmea, 1)
    ∷ (cfg_spioutprot_rtcm3x, 1)
    ∷ (cfg_uart1_enabled, 1)
    ∷ (cfg_uart1_baudrate, 4)
    ∷ (cfg_uart1_databits, 1)
    ∷ (cfg_uart1_parity, 1)
    ∷ (cfg_uart1_stopbits, 1)
    ∷ (cfg_uart1outprot_ubx, 1)
    ∷ (cfg_uart1outprot_nmea, 1)
    ∷ (cfg_uart2_enabled, 1)
    ∷ (cfg_uart2_baudrate, 4)
    ∷ (cfg_uart2_databits, 1)
    ∷ (cfg_uart2_parity, 1)
    ∷ (cfg_uart2_stopbits, 1)
    ∷ (cfg_uart2inprot_rtcm3x, 1)
    ∷ (cfg_uart2outprot_ubx, 1)
    ∷ (cfg_uart2outprot_nmea, 1)
    ∷ (cfg_uart2outprot_rtcm3x, 1)
    ∷ (cfg_txready_enabled, 1)
    ∷ (cfg_txready_polarity, 1)
    ∷ (cfg_txready_pin, 1)
    ∷ (cfg_txready_threshold, 2)
    ∷ (cfg_txready_interface, 1)
    ∷ (cfg_rate_meas, 2)
    ∷ (cfg_rate_nav, 2)
    ∷ (cfg_rate_timeref, 1)
    ∷ (cfg_navspg_dynmodel, 1)
    ∷ (cfg_navspg_infil_minsvs, 1)
    ∷ (cfg_navspg_infil_maxsvs, 1)
    ∷ (cfg_navspg_infil_mincno, 1)
    ∷ (cfg_navspg_infil_minelev, 1)
    ∷ (cfg_navspg_infil_ncnothrs, 1)
    ∷ (cfg_navspg_infil_cnothrs, 1)
    ∷ (cfg_tp_tp1_ena, 1)
    ∷ (cfg_tp_pulse_def, 1)
    ∷ (cfg_tp_pulse_length_def, 1)
    ∷ (cfg_tp_freq_tp1, 4)
    ∷ (cfg_tp_freq_lock_tp1, 4)
    ∷ (cfg_tp_duty_tp1, 8)
    ∷ (cfg_tp_duty_lock_tp1, 8)
    ∷ (cfg_tp_ant_cabledelay, 2)
    ∷ (cfg_tp_user_delay_tp1, 4)
    ∷ (cfg_tp_pol_tp1, 1)
    ∷ (cfg_tp_timegrid_tp1, 1)
    ∷ (cfg_msgout_ubx_mon_rf_uart1, 1)
    ∷ (cfg_msgout_ubx_mon_sys_uart1, 1)
    ∷ (cfg_msgout_ubx_nav_dop_uart1, 1)
    ∷ (cfg_msgout_ubx_nav_pvt_uart1, 1)
    ∷ (cfg_msgout_ubx_nav_sat_uart1, 1)
    ∷ (cfg_msgout_ubx_tim_tm2_uart1, 1)
    ∷ (cfg_msgout_ubx_mon_span_spi, 1)
    ∷ (cfg_msgout_ubx_mon_rf_spi, 1)
    ∷ (cfg_msgout_ubx_mon_sys_spi, 1)
    ∷ (cfg_msgout_ubx_nav_dop_spi, 1)
    ∷ (cfg_msgout_ubx_nav_pvt_spi, 1)
    ∷ (cfg_msgout_ubx_nav_sat_spi, 1)
    ∷ (cfg_msgout_ubx_nav_geofence_spi, 1)
    ∷ (cfg_msgout_rtcm_3x_type1005_uart2, 1)
    ∷ (cfg_msgout_rtcm_3x_type1074_uart2, 1)
    ∷ (cfg_msgout_rtcm_3x_type1077_uart2, 1)
    ∷ (cfg_msgout_rtcm_3x_type1084_uart2, 1)
    ∷ (cfg_msgout_rtcm_3x_type1087_uart2, 1)
    ∷ (cfg_msgout_rtcm_3x_type1094_uart2, 1)
    ∷ (cfg_msgout_rtcm_3x_type1097_uart2, 1)
    ∷ (cfg_msgout_rtcm_3x_type1124_uart2, 1)
    ∷ (cfg_msgout_rtcm_3x_type1127_uart2, 1)
    ∷ (cfg_msgout_rtcm_3x_type1230_uart2, 1)
    ∷ (cfg_geofence_conflvl, 1)
    ∷ (cfg_geofence_use_pio, 1)
    ∷ (cfg_geofence_pinpol, 1)
    ∷ (cfg_geofence_pin, 1)
    ∷ (cfg_geofence_use_fence1, 1)
    ∷ (cfg_geofence_fence1_lat, 4)
    ∷ (cfg_geofence_fence1_lon, 4)
    ∷ (cfg_geofence_fence1_rad, 4)
    ∷ (cfg_geofence_use_fence2, 1)
    ∷ (cfg_geofence_fence2_lat, 4)
    ∷ (cfg_geofence_fence2_lon, 4)
    ∷ (cfg_geofence_fence2_rad, 4)
    ∷ (cfg_geofence_use_fence3, 1)
    ∷ (cfg_geofence_fence3_lat, 4)
    ∷ (cfg_geofence_fence3_lon, 4)
    ∷ (cfg_geofence_fence3_rad, 4)
    ∷ (cfg_geofence_use_fence4, 1)
    ∷ (cfg_geofence_fence4_lat, 4)
    ∷ (cfg_geofence_fence4_lon, 4)
    ∷ (cfg_geofence_fence4_rad, 4)
    ∷ (cfg_tmode_mode, 1)
    ∷ (cfg_tmode_pos_type, 1)
    ∷ (cfg_tmode_ecef_x, 4)
    ∷ (cfg_tmode_ecef_y, 4)
    ∷ (cfg_tmode_ecef_z, 4)
    ∷ (cfg_tmode_ecef_x_hp, 1)
    ∷ (cfg_tmode_ecef_y_hp, 1)
    ∷ (cfg_tmode_ecef_z_hp, 1)
    ∷ (cfg_tmode_lat, 4)
    ∷ (cfg_tmode_lon, 4)
    ∷ (cfg_tmode_height, 4)
    ∷ (cfg_tmode_lat_hp, 1)
    ∷ (cfg_tmode_lon_hp, 1)
    ∷ (cfg_tmode_height_hp, 1)
    ∷ (cfg_tmode_fixed_pos_acc, 4)
    ∷ (cfg_tmode_svin_min_dur, 4)
    ∷ (cfg_tmode_svin_acc_limit, 4)
    ∷ (cfg_signal_gps_l5_ena, 1)
    ∷ (cfg_signal_gal_e5a_ena, 1)
    ∷ (cfg_signal_qzss_l5_ena, 1)
    ∷ (cfg_signal_l5_health_ovrd, 1)
    ∷ []

unfoldable pub find_size : ℕ → List (ℕ × ℕ) → Result ℕ
find_size key [] = err (unknown_key_size key)
find_size key ((k, size) ∷ rows) = if k == key then ok size else find_size key rows

unfoldable pub get_key_size : ℕ → Result ℕ
unfolding find_size
get_key_size key = find_size key key_sizes
