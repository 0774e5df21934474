-- ===== src/Messages/Keys.antt =====
-- The configuration keys of src/ublox/UbxCfgKeys.hpp.
use gnsshat.Base.{ℕ}

abbrev pub cfg_spi_maxff : ℕ
cfg_spi_maxff = 0x20640001

abbrev pub cfg_spi_cpolarity : ℕ
cfg_spi_cpolarity = 0x10640002

abbrev pub cfg_spi_cphase : ℕ
cfg_spi_cphase = 0x10640003

abbrev pub cfg_spi_extendedtimeout : ℕ
cfg_spi_extendedtimeout = 0x10640005

abbrev pub cfg_spi_enabled : ℕ
cfg_spi_enabled = 0x10640006

abbrev pub cfg_spiinprot_ubx : ℕ
cfg_spiinprot_ubx = 0x10790001

abbrev pub cfg_spiinprot_nmea : ℕ
cfg_spiinprot_nmea = 0x10790002

abbrev pub cfg_spiinprot_rtcm3x : ℕ
cfg_spiinprot_rtcm3x = 0x10790004

abbrev pub cfg_spiinprot_spartn : ℕ
cfg_spiinprot_spartn = 0x10790005

abbrev pub cfg_spioutprot_ubx : ℕ
cfg_spioutprot_ubx = 0x107a0001

abbrev pub cfg_spioutprot_nmea : ℕ
cfg_spioutprot_nmea = 0x107a0002

abbrev pub cfg_spioutprot_rtcm3x : ℕ
cfg_spioutprot_rtcm3x = 0x107a0004

abbrev pub cfg_uart1_baudrate : ℕ
cfg_uart1_baudrate = 0x40520001

abbrev pub cfg_uart1_stopbits : ℕ
cfg_uart1_stopbits = 0x20520002

abbrev pub cfg_uart1_databits : ℕ
cfg_uart1_databits = 0x20520003

abbrev pub cfg_uart1_parity : ℕ
cfg_uart1_parity = 0x20520004

abbrev pub cfg_uart1_enabled : ℕ
cfg_uart1_enabled = 0x10520005

abbrev pub cfg_uart1outprot_ubx : ℕ
cfg_uart1outprot_ubx = 0x10740001

abbrev pub cfg_uart1outprot_nmea : ℕ
cfg_uart1outprot_nmea = 0x10740002

abbrev pub cfg_uart2_baudrate : ℕ
cfg_uart2_baudrate = 0x40530001

abbrev pub cfg_uart2_stopbits : ℕ
cfg_uart2_stopbits = 0x20530002

abbrev pub cfg_uart2_databits : ℕ
cfg_uart2_databits = 0x20530003

abbrev pub cfg_uart2_parity : ℕ
cfg_uart2_parity = 0x20530004

abbrev pub cfg_uart2_enabled : ℕ
cfg_uart2_enabled = 0x10530005

abbrev pub cfg_uart2inprot_rtcm3x : ℕ
cfg_uart2inprot_rtcm3x = 0x10750004

abbrev pub cfg_uart2outprot_ubx : ℕ
cfg_uart2outprot_ubx = 0x10760001

abbrev pub cfg_uart2outprot_nmea : ℕ
cfg_uart2outprot_nmea = 0x10760002

abbrev pub cfg_uart2outprot_rtcm3x : ℕ
cfg_uart2outprot_rtcm3x = 0x10760004

abbrev pub cfg_txready_enabled : ℕ
cfg_txready_enabled = 0x10a20001

abbrev pub cfg_txready_polarity : ℕ
cfg_txready_polarity = 0x10a20002

abbrev pub cfg_txready_pin : ℕ
cfg_txready_pin = 0x20a20003

abbrev pub cfg_txready_threshold : ℕ
cfg_txready_threshold = 0x30a20004

abbrev pub cfg_txready_interface : ℕ
cfg_txready_interface = 0x20a20005

abbrev pub cfg_rate_meas : ℕ
cfg_rate_meas = 0x30210001

abbrev pub cfg_rate_nav : ℕ
cfg_rate_nav = 0x30210002

abbrev pub cfg_rate_timeref : ℕ
cfg_rate_timeref = 0x20210003

abbrev pub cfg_navspg_dynmodel : ℕ
cfg_navspg_dynmodel = 0x20110021

abbrev pub cfg_navspg_fixmode : ℕ
cfg_navspg_fixmode = 0x20110011

abbrev pub cfg_navspg_infil_minsvs : ℕ
cfg_navspg_infil_minsvs = 0x201100a1

abbrev pub cfg_navspg_infil_maxsvs : ℕ
cfg_navspg_infil_maxsvs = 0x201100a2

abbrev pub cfg_navspg_infil_mincno : ℕ
cfg_navspg_infil_mincno = 0x201100a3

abbrev pub cfg_navspg_infil_minelev : ℕ
cfg_navspg_infil_minelev = 0x201100a4

abbrev pub cfg_navspg_infil_ncnothrs : ℕ
cfg_navspg_infil_ncnothrs = 0x201100aa

abbrev pub cfg_navspg_infil_cnothrs : ℕ
cfg_navspg_infil_cnothrs = 0x201100ab

abbrev pub cfg_navspg_outfil_pdop : ℕ
cfg_navspg_outfil_pdop = 0x301100b1

abbrev pub cfg_navspg_outfil_tdop : ℕ
cfg_navspg_outfil_tdop = 0x301100b2

abbrev pub cfg_navspg_outfil_pacc : ℕ
cfg_navspg_outfil_pacc = 0x301100b3

abbrev pub cfg_navspg_outfil_tacc : ℕ
cfg_navspg_outfil_tacc = 0x301100b4

abbrev pub cfg_tp_tp1_ena : ℕ
cfg_tp_tp1_ena = 0x10050007

abbrev pub cfg_tp_pulse_def : ℕ
cfg_tp_pulse_def = 0x20050023

abbrev pub cfg_tp_pulse_length_def : ℕ
cfg_tp_pulse_length_def = 0x20050030

abbrev pub cfg_tp_freq_tp1 : ℕ
cfg_tp_freq_tp1 = 0x40050024

abbrev pub cfg_tp_freq_lock_tp1 : ℕ
cfg_tp_freq_lock_tp1 = 0x40050025

abbrev pub cfg_tp_duty_tp1 : ℕ
cfg_tp_duty_tp1 = 0x5005002a

abbrev pub cfg_tp_duty_lock_tp1 : ℕ
cfg_tp_duty_lock_tp1 = 0x5005002b

abbrev pub cfg_tp_ant_cabledelay : ℕ
cfg_tp_ant_cabledelay = 0x30050001

abbrev pub cfg_tp_user_delay_tp1 : ℕ
cfg_tp_user_delay_tp1 = 0x40050006

abbrev pub cfg_tp_pol_tp1 : ℕ
cfg_tp_pol_tp1 = 0x1005000b

abbrev pub cfg_tp_timegrid_tp1 : ℕ
cfg_tp_timegrid_tp1 = 0x2005000c

abbrev pub cfg_msgout_ubx_mon_rf_uart1 : ℕ
cfg_msgout_ubx_mon_rf_uart1 = 0x2091035a

abbrev pub cfg_msgout_ubx_mon_sys_uart1 : ℕ
cfg_msgout_ubx_mon_sys_uart1 = 0x2091069e

abbrev pub cfg_msgout_ubx_nav_dop_uart1 : ℕ
cfg_msgout_ubx_nav_dop_uart1 = 0x20910039

abbrev pub cfg_msgout_ubx_nav_pvt_uart1 : ℕ
cfg_msgout_ubx_nav_pvt_uart1 = 0x20910007

abbrev pub cfg_msgout_ubx_nav_sat_uart1 : ℕ
cfg_msgout_ubx_nav_sat_uart1 = 0x20910016

abbrev pub cfg_msgout_ubx_tim_tm2_uart1 : ℕ
cfg_msgout_ubx_tim_tm2_uart1 = 0x20910179

abbrev pub cfg_msgout_ubx_mon_span_spi : ℕ
cfg_msgout_ubx_mon_span_spi = 0x2091038f

abbrev pub cfg_msgout_ubx_mon_rf_spi : ℕ
cfg_msgout_ubx_mon_rf_spi = 0x2091035d

abbrev pub cfg_msgout_ubx_mon_sys_spi : ℕ
cfg_msgout_ubx_mon_sys_spi = 0x209106a1

abbrev pub cfg_msgout_ubx_nav_dop_spi : ℕ
cfg_msgout_ubx_nav_dop_spi = 0x2091003c

abbrev pub cfg_msgout_ubx_nav_pvt_spi : ℕ
cfg_msgout_ubx_nav_pvt_spi = 0x2091000a

abbrev pub cfg_msgout_ubx_nav_sat_spi : ℕ
cfg_msgout_ubx_nav_sat_spi = 0x20910019

abbrev pub cfg_msgout_ubx_nav_geofence_spi : ℕ
cfg_msgout_ubx_nav_geofence_spi = 0x209100a5

abbrev pub cfg_msgout_rtcm_3x_type1005_uart2 : ℕ
cfg_msgout_rtcm_3x_type1005_uart2 = 0x209102bf

abbrev pub cfg_msgout_rtcm_3x_type1074_uart2 : ℕ
cfg_msgout_rtcm_3x_type1074_uart2 = 0x20910360

abbrev pub cfg_msgout_rtcm_3x_type1077_uart2 : ℕ
cfg_msgout_rtcm_3x_type1077_uart2 = 0x209102ce

abbrev pub cfg_msgout_rtcm_3x_type1084_uart2 : ℕ
cfg_msgout_rtcm_3x_type1084_uart2 = 0x20910365

abbrev pub cfg_msgout_rtcm_3x_type1087_uart2 : ℕ
cfg_msgout_rtcm_3x_type1087_uart2 = 0x209102d3

abbrev pub cfg_msgout_rtcm_3x_type1094_uart2 : ℕ
cfg_msgout_rtcm_3x_type1094_uart2 = 0x2091036a

abbrev pub cfg_msgout_rtcm_3x_type1097_uart2 : ℕ
cfg_msgout_rtcm_3x_type1097_uart2 = 0x2091031a

abbrev pub cfg_msgout_rtcm_3x_type1124_uart2 : ℕ
cfg_msgout_rtcm_3x_type1124_uart2 = 0x2091036f

abbrev pub cfg_msgout_rtcm_3x_type1127_uart2 : ℕ
cfg_msgout_rtcm_3x_type1127_uart2 = 0x209102d8

abbrev pub cfg_msgout_rtcm_3x_type1230_uart2 : ℕ
cfg_msgout_rtcm_3x_type1230_uart2 = 0x20910305

abbrev pub cfg_geofence_conflvl : ℕ
cfg_geofence_conflvl = 0x20240011

abbrev pub cfg_geofence_use_pio : ℕ
cfg_geofence_use_pio = 0x10240012

abbrev pub cfg_geofence_pinpol : ℕ
cfg_geofence_pinpol = 0x20240013

abbrev pub cfg_geofence_pin : ℕ
cfg_geofence_pin = 0x20240014

abbrev pub cfg_geofence_use_fence1 : ℕ
cfg_geofence_use_fence1 = 0x10240020

abbrev pub cfg_geofence_fence1_lat : ℕ
cfg_geofence_fence1_lat = 0x40240021

abbrev pub cfg_geofence_fence1_lon : ℕ
cfg_geofence_fence1_lon = 0x40240022

abbrev pub cfg_geofence_fence1_rad : ℕ
cfg_geofence_fence1_rad = 0x40240023

abbrev pub cfg_geofence_use_fence2 : ℕ
cfg_geofence_use_fence2 = 0x10240030

abbrev pub cfg_geofence_fence2_lat : ℕ
cfg_geofence_fence2_lat = 0x40240031

abbrev pub cfg_geofence_fence2_lon : ℕ
cfg_geofence_fence2_lon = 0x40240032

abbrev pub cfg_geofence_fence2_rad : ℕ
cfg_geofence_fence2_rad = 0x40240033

abbrev pub cfg_geofence_use_fence3 : ℕ
cfg_geofence_use_fence3 = 0x10240040

abbrev pub cfg_geofence_fence3_lat : ℕ
cfg_geofence_fence3_lat = 0x40240041

abbrev pub cfg_geofence_fence3_lon : ℕ
cfg_geofence_fence3_lon = 0x40240042

abbrev pub cfg_geofence_fence3_rad : ℕ
cfg_geofence_fence3_rad = 0x40240043

abbrev pub cfg_geofence_use_fence4 : ℕ
cfg_geofence_use_fence4 = 0x10240050

abbrev pub cfg_geofence_fence4_lat : ℕ
cfg_geofence_fence4_lat = 0x40240051

abbrev pub cfg_geofence_fence4_lon : ℕ
cfg_geofence_fence4_lon = 0x40240052

abbrev pub cfg_geofence_fence4_rad : ℕ
cfg_geofence_fence4_rad = 0x40240053

abbrev pub cfg_signal_gps_l5_ena : ℕ
cfg_signal_gps_l5_ena = 0x10310004

abbrev pub cfg_signal_gal_e5a_ena : ℕ
cfg_signal_gal_e5a_ena = 0x10310009

abbrev pub cfg_signal_qzss_l5_ena : ℕ
cfg_signal_qzss_l5_ena = 0x10310017

abbrev pub cfg_signal_l5_health_ovrd : ℕ
cfg_signal_l5_health_ovrd = 0x10320001

abbrev pub cfg_tmode_mode : ℕ
cfg_tmode_mode = 0x20030001

abbrev pub cfg_tmode_pos_type : ℕ
cfg_tmode_pos_type = 0x20030002

abbrev pub cfg_tmode_ecef_x : ℕ
cfg_tmode_ecef_x = 0x40030003

abbrev pub cfg_tmode_ecef_y : ℕ
cfg_tmode_ecef_y = 0x40030004

abbrev pub cfg_tmode_ecef_z : ℕ
cfg_tmode_ecef_z = 0x40030005

abbrev pub cfg_tmode_ecef_x_hp : ℕ
cfg_tmode_ecef_x_hp = 0x20030006

abbrev pub cfg_tmode_ecef_y_hp : ℕ
cfg_tmode_ecef_y_hp = 0x20030007

abbrev pub cfg_tmode_ecef_z_hp : ℕ
cfg_tmode_ecef_z_hp = 0x20030008

abbrev pub cfg_tmode_lat : ℕ
cfg_tmode_lat = 0x40030009

abbrev pub cfg_tmode_lon : ℕ
cfg_tmode_lon = 0x4003000a

abbrev pub cfg_tmode_height : ℕ
cfg_tmode_height = 0x4003000b

abbrev pub cfg_tmode_lat_hp : ℕ
cfg_tmode_lat_hp = 0x2003000c

abbrev pub cfg_tmode_lon_hp : ℕ
cfg_tmode_lon_hp = 0x2003000d

abbrev pub cfg_tmode_height_hp : ℕ
cfg_tmode_height_hp = 0x2003000e

abbrev pub cfg_tmode_fixed_pos_acc : ℕ
cfg_tmode_fixed_pos_acc = 0x4003000f

abbrev pub cfg_tmode_svin_min_dur : ℕ
cfg_tmode_svin_min_dur = 0x40030010

abbrev pub cfg_tmode_svin_acc_limit : ℕ
cfg_tmode_svin_acc_limit = 0x40030011
