-- ===== src/Startup/Defaults.antt =====
-- `defaultExpectedConfigValues_` of src/ublox/Startup.cpp.
use gnsshat.Base.{[], ◌∷◌}
use gnsshat.Messages.Keys.{
  cfg_spi_maxff, cfg_spi_cpolarity, cfg_spi_cphase, cfg_spi_extendedtimeout, cfg_spi_enabled,
  cfg_spiinprot_ubx, cfg_spiinprot_nmea, cfg_spioutprot_ubx, cfg_spioutprot_nmea, cfg_uart1_enabled,
  cfg_uart1_baudrate, cfg_uart1_databits, cfg_uart1_parity, cfg_uart1_stopbits,
  cfg_uart1outprot_ubx, cfg_uart1outprot_nmea, cfg_uart2_enabled, cfg_uart2_baudrate,
  cfg_uart2_databits, cfg_uart2_parity, cfg_uart2_stopbits, cfg_uart2inprot_rtcm3x,
  cfg_uart2outprot_ubx, cfg_uart2outprot_nmea, cfg_uart2outprot_rtcm3x, cfg_txready_enabled,
  cfg_txready_polarity, cfg_txready_pin, cfg_txready_threshold, cfg_txready_interface,
  cfg_msgout_ubx_mon_rf_uart1, cfg_msgout_ubx_mon_sys_uart1, cfg_msgout_ubx_nav_dop_uart1,
  cfg_msgout_ubx_nav_pvt_uart1, cfg_msgout_ubx_nav_sat_uart1, cfg_msgout_ubx_tim_tm2_uart1,
  cfg_msgout_ubx_mon_span_spi, cfg_msgout_ubx_mon_rf_spi, cfg_msgout_ubx_nav_dop_spi,
  cfg_msgout_ubx_nav_pvt_spi, cfg_msgout_ubx_nav_sat_spi, cfg_msgout_ubx_nav_geofence_spi,
  cfg_msgout_rtcm_3x_type1005_uart2, cfg_msgout_rtcm_3x_type1074_uart2,
  cfg_msgout_rtcm_3x_type1077_uart2, cfg_msgout_rtcm_3x_type1084_uart2,
  cfg_msgout_rtcm_3x_type1087_uart2, cfg_msgout_rtcm_3x_type1094_uart2,
  cfg_msgout_rtcm_3x_type1097_uart2, cfg_msgout_rtcm_3x_type1124_uart2,
  cfg_msgout_rtcm_3x_type1127_uart2, cfg_msgout_rtcm_3x_type1230_uart2,
}
use gnsshat.Settings.{Settings}

abbrev pub default_expected_config_values : Settings
default_expected_config_values =
    record { key = cfg_spi_maxff; value = 0x3F ∷ [] }
    ∷ record { key = cfg_spi_cpolarity; value = 0x00 ∷ [] }
    ∷ record { key = cfg_spi_cphase; value = 0x00 ∷ [] }
    ∷ record { key = cfg_spi_extendedtimeout; value = 0x00 ∷ [] }
    ∷ record { key = cfg_spi_enabled; value = 0x01 ∷ [] }
    ∷ record { key = cfg_spiinprot_ubx; value = 0x01 ∷ [] }
    ∷ record { key = cfg_spiinprot_nmea; value = 0x00 ∷ [] }
    ∷ record { key = cfg_spioutprot_ubx; value = 0x01 ∷ [] }
    ∷ record { key = cfg_spioutprot_nmea; value = 0x00 ∷ [] }
    ∷ record { key = cfg_uart1_enabled; value = 0x01 ∷ [] }
    ∷ record { key = cfg_uart1_baudrate; value = 0x00 ∷ 0xC2 ∷ 0x01 ∷ 0x00 ∷ [] }
    ∷ record { key = cfg_uart1_databits; value = 0x00 ∷ [] }
    ∷ record { key = cfg_uart1_parity; value = 0x00 ∷ [] }
    ∷ record { key = cfg_uart1_stopbits; value = 0x01 ∷ [] }
    ∷ record { key = cfg_uart1outprot_ubx; value = 0x01 ∷ [] }
    ∷ record { key = cfg_uart1outprot_nmea; value = 0x00 ∷ [] }
    ∷ record { key = cfg_uart2_enabled; value = 0x01 ∷ [] }
    ∷ record { key = cfg_uart2_baudrate; value = 0x00 ∷ 0xC2 ∷ 0x01 ∷ 0x00 ∷ [] }
    ∷ record { key = cfg_uart2_databits; value = 0x00 ∷ [] }
    ∷ record { key = cfg_uart2_parity; value = 0x00 ∷ [] }
    ∷ record { key = cfg_uart2_stopbits; value = 0x01 ∷ [] }
    ∷ record { key = cfg_uart2inprot_rtcm3x; value = 0x01 ∷ [] }
    ∷ record { key = cfg_uart2outprot_ubx; value = 0x00 ∷ [] }
    ∷ record { key = cfg_uart2outprot_nmea; value = 0x00 ∷ [] }
    ∷ record { key = cfg_uart2outprot_rtcm3x; value = 0x01 ∷ [] }
    ∷ record { key = cfg_txready_enabled; value = 0x01 ∷ [] }
    ∷ record { key = cfg_txready_polarity; value = 0x00 ∷ [] }
    ∷ record { key = cfg_txready_pin; value = 0x07 ∷ [] }
    ∷ record { key = cfg_txready_threshold; value = 0x18 ∷ 0x00 ∷ [] }
    ∷ record { key = cfg_txready_interface; value = 0x01 ∷ [] }
    ∷ record { key = cfg_msgout_ubx_mon_rf_uart1; value = 0x01 ∷ [] }
    ∷ record { key = cfg_msgout_ubx_mon_sys_uart1; value = 0x01 ∷ [] }
    ∷ record { key = cfg_msgout_ubx_nav_dop_uart1; value = 0x01 ∷ [] }
    ∷ record { key = cfg_msgout_ubx_nav_pvt_uart1; value = 0x01 ∷ [] }
    ∷ record { key = cfg_msgout_ubx_nav_sat_uart1; value = 0x01 ∷ [] }
    ∷ record { key = cfg_msgout_ubx_tim_tm2_uart1; value = 0x00 ∷ [] }
    ∷ record { key = cfg_msgout_ubx_mon_span_spi; value = 0x01 ∷ [] }
    ∷ record { key = cfg_msgout_ubx_mon_rf_spi; value = 0x01 ∷ [] }
    ∷ record { key = cfg_msgout_ubx_nav_dop_spi; value = 0x01 ∷ [] }
    ∷ record { key = cfg_msgout_ubx_nav_pvt_spi; value = 0x01 ∷ [] }
    ∷ record { key = cfg_msgout_ubx_nav_sat_spi; value = 0x01 ∷ [] }
    ∷ record { key = cfg_msgout_ubx_nav_geofence_spi; value = 0x01 ∷ [] }
    ∷ record { key = cfg_msgout_rtcm_3x_type1005_uart2; value = 0x01 ∷ [] }
    ∷ record { key = cfg_msgout_rtcm_3x_type1074_uart2; value = 0x01 ∷ [] }
    ∷ record { key = cfg_msgout_rtcm_3x_type1077_uart2; value = 0x01 ∷ [] }
    ∷ record { key = cfg_msgout_rtcm_3x_type1084_uart2; value = 0x01 ∷ [] }
    ∷ record { key = cfg_msgout_rtcm_3x_type1087_uart2; value = 0x01 ∷ [] }
    ∷ record { key = cfg_msgout_rtcm_3x_type1094_uart2; value = 0x01 ∷ [] }
    ∷ record { key = cfg_msgout_rtcm_3x_type1097_uart2; value = 0x01 ∷ [] }
    ∷ record { key = cfg_msgout_rtcm_3x_type1124_uart2; value = 0x01 ∷ [] }
    ∷ record { key = cfg_msgout_rtcm_3x_type1127_uart2; value = 0x01 ∷ [] }
    ∷ record { key = cfg_msgout_rtcm_3x_type1230_uart2; value = 0x01 ∷ [] }
    ∷ []
