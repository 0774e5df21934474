-- ===== src/Nmea.antt =====
-- The sentences of src/ublox/NmeaForwarder.cpp, as the codes of their characters, and the decision
-- of its thread to write them. The pseudo terminal that they are written to is not modelled.
pub mod Text
pub mod Sentences
pub mod Satellites
pub mod Forward
pub mod Groups
pub mod Cover
pub mod Checked
mod Stars
mod Digits
mod Tests
