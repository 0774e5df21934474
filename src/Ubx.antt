-- ===== src/Ubx.antt =====
-- The UBX protocol: src/ublox/UbxParser.cpp and src/ublox/UbxClassMsgId.hpp.
pub mod Checksum
pub mod Frames
mod Tests
