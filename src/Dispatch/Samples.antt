-- ===== src/Dispatch/Samples.antt =====
-- A receiver before its first message, for the tests.
use gnsshat.Base.{pos, false, none, [], ◌∷◌}
use gnsshat.Dispatch.{Registry}
use gnsshat.Dispatch.Parse.{Receiver}
use gnsshat.Navigation.Store.{NavigationStore}
use gnsshat.Navigation.Types.{
  Real, ratio, DilutionOverPrecision, PositionVelocityTime, SystemHealth, MonVer,
}

abbrev pub fresh : Registry
fresh = record {
  acks = λ msg. false;
  naks = λ msg. false;
  stored_config_values = [];
  should_save_config_to_flash = false;
}

abbrev pub zero_real : Real
zero_real = ratio (pos 0) 1

abbrev pub no_dop : DilutionOverPrecision
no_dop = record {
  geometric = zero_real;
  position = zero_real;
  time = zero_real;
  vertical = zero_real;
  horizontal = zero_real;
  northing = zero_real;
  easting = zero_real;
}

abbrev pub no_pvt : PositionVelocityTime
no_pvt = record {
  fix_quality = 0;
  fix_status = 0;
  fix_type = 0;
  utc = record { hh = 0; mm = 0; ss = 0; valid = false; accuracy = pos 0 };
  date = record { day = 0; month = 0; year = 0; valid = false };
  altitude = zero_real;
  altitude_msl = zero_real;
  latitude = zero_real;
  longitude = zero_real;
  speed_over_ground = zero_real;
  speed_accuracy = zero_real;
  heading = zero_real;
  heading_accuracy = zero_real;
  visible_satellites = 0;
  horizontal_accuracy = zero_real;
  vertical_accuracy = zero_real;
}

abbrev pub no_health : SystemHealth
no_health = record {
  valid = false;
  msg_version = 0;
  boot_type = 0;
  cpu_load = 0;
  cpu_load_max = 0;
  mem_usage = 0;
  mem_usage_max = 0;
  io_usage = 0;
  io_usage_max = 0;
  run_time = 0;
  notice_count = 0;
  warn_count = 0;
  error_count = 0;
  temperature_c = pos 0;
}

abbrev pub no_ver : MonVer
no_ver = record { sw_version = []; hw_version = []; extensions = [] }

abbrev pub empty_store : NavigationStore
empty_store = record {
  dop = no_dop;
  pvt = no_pvt;
  geofencing_nav = record {
    i_tow = 0;
    geofencing_status = 0;
    number_of_geofences = 0;
    combined_state = 0;
    geofences_status = 0 ∷ 0 ∷ 0 ∷ 0 ∷ [];
  };
  rf_blocks = [];
  rf_blocks_spectrum_data = [];
  satellites = [];
  time_mark = none;
  mon_ver = no_ver;
  system_health = no_health;
}

abbrev pub idle : Receiver
idle = record {
  registry = fresh;
  store = empty_store;
  mon_ver = no_ver;
  mon_sys = no_health;
  navigation_epoch_seen = false;
  mon_ver_seen = false;
  time_mark_notifications = 0;
}
