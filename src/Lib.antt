-- ===== src/Lib.antt =====
-- The receiver side of GnssHat: the byte streams of a u-blox receiver, its messages and what they
-- leave in the stores, the startup, and the NMEA sentences made of the navigation.
--
-- The program talks to the receiver over SPI or UART. A reader thread (src/ublox/Run.cpp) hands the
-- bytes it gets, behind the unfinished bytes of the last call, to `UbxParser`, and on the second
-- UART of an RTK base to `Rtcm3Parser`. UBX frames go to the messages of src/ublox/ubxmsg, whose
-- callbacks fill the configuration registry and the navigation store; RTCM3 frames go to
-- `Rtcm3Store`. `NmeaForwarder` prints the navigation as NMEA sentences. The startup
-- (src/ublox/Startup.cpp) turns the user's configuration into register values, polls groups of
-- keys, sends what differs and verifies it.
--
-- Files and what they model:
-- - Base: native lists, bytes and little-endian words, integers, and `Result`, the outcome of code
--   that may throw or leave an object's bounds. `readLE` and `serializeInt2LittleEndian` of
--   src/common/Utils.hpp are `read_le` and `to_le`; `frame[i]` is `read_at`, and the copy of a range
--   of a frame is `read_range`, both of which fault outside the frame.
-- - Ubx.Checksum, Ubx.Frames: `checksum`, `checkFrame`, `addChecksum` and `extractFrames` of
--   src/ublox/UbxParser.cpp. `Extracted` is what a call leaves in `frames_` and in the unfinished
--   bytes; the iterator into the buffer is the rest of the buffer.
-- - Messages: `buildFrame` of src/ublox/ubxmsg/IUbxMsg.cpp, UBX_CFG_VALSET.hpp and
--   UBX_CFG_VALGET.hpp with their loops, the keys of src/ublox/UbxCfgKeys.hpp and the table
--   `keySizes_` of UBX_CFG_VALGET.cpp.
-- - Dispatch: the table of src/ublox/UbxClassMsgId.hpp, UBX_ACK_ACK.hpp and UBX_ACK_NAK.hpp with
--   their callback in src/ublox/UbxCallbacks.cpp, and the registry, `Registry`, of
--   src/ublox/UbloxConfigRegistry.cpp.
-- - Dispatch.Parse: `parse` of src/ublox/UbxParser.cpp: extraction, src/ublox/UbxFactory.cpp, and
--   src/ublox/UbxCallbacks.cpp for every message. `Receiver` is the state that the callbacks change:
--   the registry, the navigation store and the flags. Kinds and Latest say what a list of frames
--   leaves in the store.
-- - Navigation: the deserializers of UBX_NAV_*, UBX_MON_* and UBX_TIM_TM2 in src/ublox/ubxmsg, and
--   the setters of src/ublox/NavigationStore.cpp (Store).
-- - Legacy: the configuration messages UBX_CFG_* of src/ublox/ubxmsg other than VALSET and VALGET.
-- - Sync: src/common/JPGuard.cpp and src/common/Notifier.hpp. Each operation is a step under its
--   mutex, so that interleavings are lists of steps.
-- - Settings: the maps from keys to bytes, `expectedConfigValues_` and `storedConfigValues_`, as
--   association lists; `find` and `assign` are `find` and `operator[]` with an assignment.
-- - Config, Config.Checks: the configuration of src/ublox/GnssConfig.hpp and the checks of
--   GnssConfig.cpp and BaseConfig.cpp.
-- - Startup: src/ublox/Startup.cpp. Registers and Geofences are the functions that fill
--   `expectedConfigValues_`, as lists of assignments; Defaults is its initial value; Groups and
--   Strategies are the constructors and the order of the groups in `execute` of the three receivers;
--   Verify is `verifyConfig` and the search for mismatches in `configure`. Configure is `awaitAck`
--   and `configure` as a whole, Execute the three `execute` with the search for the port, the saving
--   to the flash and the poll of the version. `World` is the receiver state of Dispatch.Parse and the
--   list of the frames sent.
-- - Base64: `base64Encode` and `base64Decode` of src/common/Utils.cpp.
-- - Rtcm3: src/ublox/Rtcm3Parser.cpp (Crc, Parser) and src/ublox/Rtcm3Store.cpp (Store);
--   src/ublox/RTK.cpp (Rtk).
-- - Nmea: the sentences of src/ublox/NmeaForwarder.cpp and the round of its thread (Forward); Groups
--   and Cover describe the GSV sentences by lists.
-- - Loops: the buffers of `M9NRun::execute` and `F9PRun::executeUartBase` of src/ublox/Run.cpp.
--   Rounds is `M9NRun::execute` and `F10TRun::execute` as a whole, with the parser's state and the
--   calls of the navigation notifier.
--
-- Bounds and fuel. Bytes are numbers; sums that wrap are written with their modulus. The rounds of
-- the two `extractFrames` are structural in the slots of `frames_`, 300 and 30 in the source, any
-- number here. The loops of VALSET and VALGET run on fuel: a round goes four bytes on at least, so
-- the size of the frame is enough, and the theorems on their outcomes exclude that it runs out.
-- The loop that fills the buffer of 8192 bytes by batches of 1024 has fuel for nine rounds, one more
-- than there is room for. `digits`, which prints n in decimal, has fuel for n + 1 digits.
--
-- Parameters. The configuration's floating-point operations are a record, `Floating`, of which only
-- the size of a `double` is used, those of the NMEA sentences a record `Floats`; a floating-point
-- field of a message is the unevaluated expression that the code writes, `Real`. What the driver
-- reads, and how often it is asked before a deadline, are inputs of the loops and of the startup.
-- Whether `JPGuard` is taken in time is an input of each operation of the RTCM3 store.
-- The measurement rate by which `rate2Registers` divides is not 0 in the source.
--
-- Not modelled: `executeUartRover` of src/ublox/Run.cpp, and when the threads start and stop; the
-- baud rates and modes the port is set to, and the pauses of the startup; the pseudo terminal of the
-- NMEA forwarder; the serialization of the legacy port and geofence messages, which nothing calls;
-- NTRIP (src/ntrip); drivers and pins, which are system calls; and the public interfaces, which are
-- glue. Printing to the error stream is left out everywhere.
pub mod Base
pub mod Ubx
pub mod Messages
pub mod Settings
pub mod Config
pub mod Startup
pub mod Rtcm3
pub mod Base64
pub mod Dispatch
pub mod Loops
pub mod Navigation
pub mod Legacy
pub mod Sync
pub mod Nmea
