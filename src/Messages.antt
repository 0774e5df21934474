-- ===== src/Messages.antt =====
-- The UBX messages: src/ublox/ubxmsg and src/ublox/UbxCfgKeys.hpp.
pub mod Keys
pub mod KeySizes
pub mod Framing
pub mod Pairs
pub mod Valset
pub mod Valget
mod Tests
