-- ===== src/Rtcm3.antt =====
-- src/ublox/Rtcm3Parser.cpp and src/ublox/Rtcm3Store.cpp.
pub mod Crc
pub mod Parser
pub mod Store
pub mod Rtk
mod Tests
