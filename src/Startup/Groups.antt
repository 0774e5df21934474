-- ===== src/Startup/Groups.antt =====
-- The groups of keys that `execute` of src/ublox/Startup.cpp configures.
use gnsshat.Base.{ℕ, List, [], ◌∷◌}
use gnsshat.Messages.Keys.{
  cfg_geofence_conflvl, cfg_geofence_fence1_lat, cfg_geofence_fence1_lon, cfg_geofence_fence1_rad,
  cfg_geofence_fence2_lat, cfg_geofence_fence2_lon, cfg_geofence_fence2_rad,
  cfg_geofence_fence3_lat, cfg_geofence_fence3_lon, cfg_geofence_fence3_rad,
  cfg_geofence_fence4_lat, cfg_geofence_fence4_lon, cfg_geofence_fence4_rad, cfg_geofence_pin,
  cfg_geofence_pinpol, cfg_geofence_use_fence1, cfg_geofence_use_fence2, cfg_geofence_use_fence3,
  cfg_geofence_use_fence4, cfg_geofence_use_pio, cfg_msgout_rtcm_3x_type1005_uart2,
  cfg_msgout_rtcm_3x_type1074_uart2, cfg_msgout_rtcm_3x_type1077_uart2,
  cfg_msgout_rtcm_3x_type1084_uart2, cfg_msgout_rtcm_3x_type1087_uart2,
  cfg_msgout_rtcm_3x_type1094_uart2, cfg_msgout_rtcm_3x_type1097_uart2,
  cfg_msgout_rtcm_3x_type1124_uart2, cfg_msgout_rtcm_3x_type1127_uart2,
  cfg_msgout_rtcm_3x_type1230_uart2, cfg_msgout_ubx_mon_rf_spi, cfg_msgout_ubx_mon_rf_uart1,
  cfg_msgout_ubx_mon_span_spi, cfg_msgout_ubx_mon_sys_spi, cfg_msgout_ubx_mon_sys_uart1,
  cfg_msgout_ubx_nav_dop_spi, cfg_msgout_ubx_nav_dop_uart1, cfg_msgout_ubx_nav_geofence_spi,
  cfg_msgout_ubx_nav_pvt_spi, cfg_msgout_ubx_nav_pvt_uart1, cfg_msgout_ubx_nav_sat_spi,
  cfg_msgout_ubx_tim_tm2_uart1, cfg_navspg_dynmodel, cfg_rate_meas, cfg_rate_nav, cfg_rate_timeref,
  cfg_signal_gps_l5_ena, cfg_signal_l5_health_ovrd, cfg_spi_cphase, cfg_spi_cpolarity,
  cfg_spi_enabled, cfg_spi_extendedtimeout, cfg_spi_maxff, cfg_spiinprot_nmea, cfg_spiinprot_rtcm3x,
  cfg_spiinprot_spartn, cfg_spiinprot_ubx, cfg_spioutprot_nmea, cfg_spioutprot_rtcm3x,
  cfg_spioutprot_ubx, cfg_tmode_mode, cfg_txready_enabled, cfg_txready_interface, cfg_txready_pin,
  cfg_txready_polarity, cfg_txready_threshold, cfg_uart1_baudrate, cfg_uart1_databits,
  cfg_uart1_enabled, cfg_uart1_parity, cfg_uart1_stopbits, cfg_uart1outprot_nmea,
  cfg_uart1outprot_ubx, cfg_uart2_baudrate, cfg_uart2_databits, cfg_uart2_enabled, cfg_uart2_parity,
  cfg_uart2_stopbits, cfg_uart2inprot_rtcm3x, cfg_uart2outprot_nmea, cfg_uart2outprot_rtcm3x,
  cfg_uart2outprot_ubx,
}

abbrev pub spi_keys : List ℕ
spi_keys =
    cfg_spi_maxff ∷ cfg_spi_cpolarity ∷ cfg_spi_cphase ∷ cfg_spi_extendedtimeout ∷ cfg_spi_enabled
    ∷ []

abbrev pub spi_in_prot_keys : List ℕ
spi_in_prot_keys = cfg_spiinprot_ubx ∷ cfg_spiinprot_nmea ∷ []

abbrev pub spi_out_prot_keys : List ℕ
spi_out_prot_keys = cfg_spioutprot_ubx ∷ cfg_spioutprot_nmea ∷ []

abbrev pub tx_ready_keys : List ℕ
tx_ready_keys =
    cfg_txready_enabled ∷ cfg_txready_polarity ∷ cfg_txready_pin ∷ cfg_txready_threshold
    ∷ cfg_txready_interface ∷ []

abbrev pub dyn_model_keys : List ℕ
dyn_model_keys = cfg_navspg_dynmodel ∷ []

abbrev pub geofence_common_keys : List ℕ
geofence_common_keys =
    cfg_geofence_conflvl ∷ cfg_geofence_use_pio ∷ cfg_geofence_pinpol ∷ cfg_geofence_pin ∷ []

abbrev pub geofence_fence_keys : List ℕ
geofence_fence_keys =
    cfg_geofence_use_fence1 ∷ cfg_geofence_fence1_lat ∷ cfg_geofence_fence1_lon
    ∷ cfg_geofence_fence1_rad ∷ cfg_geofence_use_fence2 ∷ cfg_geofence_fence2_lat
    ∷ cfg_geofence_fence2_lon ∷ cfg_geofence_fence2_rad ∷ cfg_geofence_use_fence3
    ∷ cfg_geofence_fence3_lat ∷ cfg_geofence_fence3_lon ∷ cfg_geofence_fence3_rad
    ∷ cfg_geofence_use_fence4 ∷ cfg_geofence_fence4_lat ∷ cfg_geofence_fence4_lon
    ∷ cfg_geofence_fence4_rad ∷ []

abbrev pub rate_keys : List ℕ
rate_keys = cfg_rate_meas ∷ cfg_rate_nav ∷ cfg_rate_timeref ∷ []

abbrev pub msgout_keys : List ℕ
msgout_keys =
    cfg_msgout_ubx_mon_span_spi ∷ cfg_msgout_ubx_mon_rf_spi ∷ cfg_msgout_ubx_nav_dop_spi
    ∷ cfg_msgout_ubx_nav_pvt_spi ∷ cfg_msgout_ubx_nav_sat_spi ∷ cfg_msgout_ubx_nav_geofence_spi ∷ []

abbrev pub uart1_keys : List ℕ
uart1_keys =
    cfg_uart1_enabled ∷ cfg_uart1_baudrate ∷ cfg_uart1_databits ∷ cfg_uart1_parity
    ∷ cfg_uart1_stopbits ∷ []

abbrev pub prt_out_proto_keys : List ℕ
prt_out_proto_keys = cfg_uart1outprot_ubx ∷ cfg_uart1outprot_nmea ∷ []

abbrev pub l5_signal_keys : List ℕ
l5_signal_keys = cfg_signal_gps_l5_ena ∷ cfg_signal_l5_health_ovrd ∷ []

abbrev pub msg_cfg_keys : List ℕ
msg_cfg_keys =
    cfg_msgout_ubx_mon_rf_uart1 ∷ cfg_msgout_ubx_mon_sys_uart1 ∷ cfg_msgout_ubx_nav_dop_uart1
    ∷ cfg_msgout_ubx_nav_pvt_uart1 ∷ cfg_msgout_ubx_tim_tm2_uart1 ∷ []

abbrev pub tmode_disable_key : List ℕ
tmode_disable_key = cfg_tmode_mode ∷ []

abbrev pub spi_prot_f9p_keys : List ℕ
spi_prot_f9p_keys = cfg_spiinprot_rtcm3x ∷ cfg_spiinprot_spartn ∷ cfg_spioutprot_rtcm3x ∷ []

abbrev pub mon_sys_spi_keys : List ℕ
mon_sys_spi_keys = cfg_msgout_ubx_mon_sys_spi ∷ []

abbrev pub uart2_keys : List ℕ
uart2_keys =
    cfg_uart2_enabled ∷ cfg_uart2_baudrate ∷ cfg_uart2_databits ∷ cfg_uart2_parity
    ∷ cfg_uart2_stopbits ∷ []

abbrev pub uart2_prot_out_keys : List ℕ
uart2_prot_out_keys = cfg_uart2outprot_ubx ∷ cfg_uart2outprot_nmea ∷ cfg_uart2outprot_rtcm3x ∷ []

abbrev pub rtcm3_msg_keys : List ℕ
rtcm3_msg_keys =
    cfg_msgout_rtcm_3x_type1005_uart2 ∷ cfg_msgout_rtcm_3x_type1074_uart2
    ∷ cfg_msgout_rtcm_3x_type1077_uart2 ∷ cfg_msgout_rtcm_3x_type1084_uart2
    ∷ cfg_msgout_rtcm_3x_type1087_uart2 ∷ cfg_msgout_rtcm_3x_type1094_uart2
    ∷ cfg_msgout_rtcm_3x_type1097_uart2 ∷ cfg_msgout_rtcm_3x_type1124_uart2
    ∷ cfg_msgout_rtcm_3x_type1127_uart2 ∷ cfg_msgout_rtcm_3x_type1230_uart2 ∷ []

abbrev pub uart2_prot_in_keys : List ℕ
uart2_prot_in_keys = cfg_uart2inprot_rtcm3x ∷ []
