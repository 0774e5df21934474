-- ===== src/Legacy.antt =====
-- The configuration messages that VALSET has replaced, in src/ublox/ubxmsg. Each is still
-- deserialized when a frame of its kind arrives; its callback is empty.
pub mod Simple
pub mod Timepulse5
pub mod Port
pub mod Bounds
mod Tests
