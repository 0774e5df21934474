-- ===== src/Rtcm3/Parser.antt =====
-- `extractFrames`, `checkFrame` and `getFrameId` of src/ublox/Rtcm3Parser.cpp.
use gnsshat.Base.{
  ℕ, zero, suc, ◌+◌, ◌-◌, ◌*◌, ◌/◌, ◌%◌, ◌||◌, not, Bool, true, false, List, [], ◌∷◌, ◌==◌, ltb,
  if◌then◌else◌, length, take, drop, Bytes, Result, ok, ◌>>=◌, read_at,
}
use gnsshat.Rtcm3.Crc.{crc24q}
use gnsshat.Ubx.Frames.{Extracted, stop, store_frame}
pub mod Rounds
pub mod Sound
pub mod Resume

-- `std::find` for 0xD3: the buffer from the first match on, or nothing.
unfoldable pub find_preamble : Bytes → Bytes
find_preamble [] = []
find_preamble (x ∷ rest) = let later = find_preamble rest in if x == 0xD3 then x ∷ rest else later

-- `((b1 & 0x03) << 8) | b2` for the two bytes behind the preamble.
unfoldable pub read_length : Bytes → Result ℕ
read_length frame = do b1 ← read_at frame 1; b2 ← read_at frame 2; ok (b1 % 4 * 256 + b2)

-- The three bytes behind the data, high byte first.
unfoldable pub received_crc : Bytes → ℕ → Result ℕ
received_crc frame n = do
  b0 ← read_at frame n
  b1 ← read_at frame (n + 1)
  b2 ← read_at frame (n + 2)
  ok (b0 * 65536 + b1 * 256 + b2)

unfoldable pub compare_crc : Bytes → ℕ → Result Bool
compare_crc frame n = do crc ← crc24q frame n; received ← received_crc frame n; ok (crc == received)

unfoldable pub check_rtcm3_frame : Bytes → Result Bool
check_rtcm3_frame frame = if ltb (length frame) 6 then ok false else (do
  data_length ← read_length frame
  if not (length frame == data_length + 6) then ok false else compare_crc frame (3 + data_length))

-- A whole frame: it is checked and stored, and the loop goes on behind it.
unfoldable pub keep_rtcm3_frame : (Bytes → Result Extracted) → Bytes → Bytes → Result Extracted
keep_rtcm3_frame later frame rest = do
  valid ← check_rtcm3_frame frame
  more ← later rest
  ok (store_frame frame valid more)

-- What follows the search of one round, at the match and all behind it.
unfoldable pub extract_rtcm3_at : (Bytes → Result Extracted) → Bytes → Result Extracted
extract_rtcm3_at later found =
    if ltb 2 (length found)
    then (do
      data_length ← read_length found
      let size = data_length + 6
      if ltb (length found - 2) (data_length + 4)
          then stop found
          else keep_rtcm3_frame later (take size found) (drop size found))
    else stop found

-- The rounds of the loop, one for each slot of `frames_` that is left.
unfoldable pub extract_rtcm3_frames : ℕ → Bytes → Result Extracted
extract_rtcm3_frames zero buffer = stop []
extract_rtcm3_frames (suc slots) buffer =
    extract_rtcm3_at (extract_rtcm3_frames slots) (find_preamble buffer)

abbrev pub max_number_of_rtcm3_frames : ℕ
max_number_of_rtcm3_frames = 30

-- The twelve bits behind the length.
abbrev pub frame_id_bits : Bytes → Result ℕ
frame_id_bits frame = do b0 ← read_at frame 3; b1 ← read_at frame 4; ok (b0 * 16 + b1 / 16)

unfoldable pub get_frame_id : Bytes → Result ℕ
get_frame_id frame =
    if ltb (length frame) 6
    then ok 0
    else (do first ← read_at frame 0; if not (first == 0xD3) then ok 0 else frame_id_bits frame)
