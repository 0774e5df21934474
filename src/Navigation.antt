-- ===== src/Navigation.antt =====
-- The navigation and monitoring messages of src/ublox/ubxmsg and the NavigationStore of
-- src/ublox/NavigationStore.cpp that they are put into.
pub mod Types
pub mod Position
pub mod Satellites
pub mod Monitor
pub mod Store
pub mod Bounds
pub mod Counts
mod Tests
