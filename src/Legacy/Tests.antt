-- ===== src/Legacy/Tests.antt =====
-- A port configuration that is cut short.
use gnsshat.Base.{◌≤◌, ◌↔◌, inl, inr, refl, [], ◌∷◌, length, Bytes, HasValue}
use gnsshat.Legacy.Simple.{rate_deserialize, msg_deserialize, nav5_deserialize}
use gnsshat.Legacy.Timepulse5.{tp5_deserialize}
use gnsshat.Legacy.Port.{port_deserialize}
use gnsshat.Legacy.Bounds.{legacy_deserialize_bounds}

-- Nine bytes for the first UART, which the test of the length lets pass.
abbrev port_frame : Bytes
port_frame = 0xB5 ∷ 0x62 ∷ 0x06 ∷ 0x00 ∷ 0x01 ∷ 0x00 ∷ 0x01 ∷ 0x08 ∷ 0x22 ∷ []

legacy_deserialize_bounds_example :
    (HasValue (port_deserialize port_frame) ↔ (24 ≤ length port_frame))
    × (HasValue (tp5_deserialize port_frame) ↔ (38 ≤ length port_frame))
    × (HasValue (rate_deserialize port_frame) ↔ (14 ≤ length port_frame))
    × (HasValue (msg_deserialize port_frame) ↔ (14 ≤ length port_frame))
    × (HasValue (nav5_deserialize port_frame) ↔ (9 ≤ length port_frame))
legacy_deserialize_bounds_example = legacy_deserialize_bounds port_frame 1 refl (inr (inl refl))
