-- ===== src/Startup.antt =====
-- src/ublox/Startup.cpp.
pub mod Defaults
pub mod Registers
pub mod Geofences
pub mod Groups
pub mod Strategies
pub mod Expected
pub mod Verify
pub mod Unverifiable
pub mod Configure
pub mod Execute
pub mod Samples
mod Tests
