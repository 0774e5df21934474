-- ===== src/Navigation/Tests.antt =====
-- Frames of the navigation messages.
use gnsshat.Base.{
  ◌+◌, ◌*◌, ◌-◌, ◌/◌, ◌≤◌, ◌↔◌, ◌⊎◌, ◌<◌, ◌≡◌, refl, min, pos, false, List, [], ◌∷◌, length, Bytes,
  ok, err, out_of_bounds, read_at, ℕ, HasValue,
}
use gnsshat.Navigation.Types.{SatelliteInfo, SystemHealth}
use gnsshat.Navigation.Position.{pvt_deserialize, dop_deserialize, time_mark_deserialize}
use gnsshat.Navigation.Satellites.{sat_deserialize, geofencing_nav_deserialize}
use gnsshat.Navigation.Monitor.{sys_deserialize, rf_deserialize, span_deserialize}
use gnsshat.Navigation.Bounds.{deserialize_bounds}
use gnsshat.Navigation.Counts.{
  sat_deserialize_count, blocks_deserialize_bounds, geofencing_nav_deserialize_bounds,
}

-- Two satellites are announced, one is there.
abbrev sat_frame : Bytes
sat_frame =
    0xB5 ∷ 0x62 ∷ 0x01 ∷ 0x35 ∷ 0x14 ∷ 0x00 ∷ 0 ∷ 0 ∷ 0 ∷ 0 ∷ 1 ∷ 2 ∷ 0 ∷ 0 ∷ 6 ∷ 7 ∷ 40 ∷ 30 ∷ 100
    ∷ 0 ∷ 0 ∷ 0 ∷ 0x1F ∷ 0 ∷ 0 ∷ 0 ∷ 0x11 ∷ 0x22 ∷ []

sat_deserialize_count_example :
    ((length sat_frame < 12) × (sat_deserialize sat_frame ≡ err out_of_bounds))
    ⊎ ((num_svs : ℕ) × (sats : List SatelliteInfo) × (read_at sat_frame 11 ≡ ok num_svs)
        × (sat_deserialize sat_frame ≡ ok sats)
        × (length sats ≡ min num_svs ((length sat_frame - 14) / 12)))
sat_deserialize_count_example = sat_deserialize_count sat_frame

-- A block is announced, none is there.
abbrev rf_frame : Bytes
rf_frame = 0xB5 ∷ 0x62 ∷ 0x0A ∷ 0x38 ∷ 0x04 ∷ 0x00 ∷ 0 ∷ 1 ∷ 0 ∷ 0 ∷ 0x47 ∷ 0x6C ∷ []

blocks_deserialize_bounds_example :
    (HasValue (rf_deserialize rf_frame) ↔ (8 + 1 * 24 ≤ length rf_frame))
    × (HasValue (span_deserialize rf_frame) ↔ (7 + 1 * 272 ≤ length rf_frame))
blocks_deserialize_bounds_example = blocks_deserialize_bounds rf_frame 1 refl

-- Five fences are announced and there.
abbrev fence_frame : Bytes
fence_frame =
    0xB5 ∷ 0x62 ∷ 0x01 ∷ 0x39 ∷ 0x12 ∷ 0x00 ∷ 0 ∷ 0 ∷ 0 ∷ 0 ∷ 0 ∷ 1 ∷ 5 ∷ 1 ∷ 1 ∷ 0 ∷ 2 ∷ 0 ∷ 2 ∷ 0
    ∷ 2 ∷ 0 ∷ 2 ∷ 0 ∷ 0x61 ∷ 0x62 ∷ []

geofencing_nav_deserialize_bounds_example :
    HasValue (geofencing_nav_deserialize fence_frame)
    ↔ ((14 ≤ length fence_frame) × (13 + 2 * 5 ≤ length fence_frame) × (5 ≤ 4))
geofencing_nav_deserialize_bounds_example =
    geofencing_nav_deserialize_bounds fence_frame 5 refl refl

abbrev no_health : SystemHealth
no_health = record {
  valid = false;
  msg_version = 0;
  boot_type = 0;
  cpu_load = 0;
  cpu_load_max = 0;
  mem_usage = 0;
  mem_usage_max = 0;
  io_usage = 0;
  io_usage_max = 0;
  run_time = 0;
  notice_count = 0;
  warn_count = 0;
  error_count = 0;
  temperature_c = pos 0;
}

deserialize_bounds_example :
    (HasValue (pvt_deserialize sat_frame) ↔ (82 ≤ length sat_frame))
    × (HasValue (dop_deserialize sat_frame) ↔ (24 ≤ length sat_frame))
    × (HasValue (time_mark_deserialize sat_frame) ↔ (34 ≤ length sat_frame))
    × HasValue (sys_deserialize no_health sat_frame)
deserialize_bounds_example = deserialize_bounds sat_frame no_health
