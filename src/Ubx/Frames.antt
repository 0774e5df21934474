-- ===== src/Ubx/Frames.antt =====
-- `extractFrames` of src/ublox/UbxParser.cpp.
use gnsshat.Base.{
  ℕ, zero, suc, ◌+◌, ◌-◌, Bool, ◌&&◌, List, [], ◌∷◌, ◌==◌, ltb, if◌then◌else◌, length, take, drop,
  Bytes, Result, ok, ◌>>=◌, read_le,
}
use gnsshat.Ubx.Checksum.{check_frame}
pub mod Search
pub mod Rounds
pub mod Sound
pub mod Stream
pub mod Resume
pub mod Cut

-- `std::search` for 0xB5 0x62: the buffer from the first match on, or nothing.
unfoldable pub search_sync : Bytes → Bytes
search_sync [] = []
search_sync (x ∷ []) = []
search_sync (x ∷ y ∷ rest) =
    let later = search_sync (y ∷ rest) in if x == 0xB5 && y == 0x62 then x ∷ y ∷ rest else later

-- The frames that were filled, a frame that failed its check left empty, and the unfinished bytes.
pub record Extracted : Type 0 where
  pub frames : List Bytes
  pub unfinished : Bytes

abbrev pub stop : Bytes → Result Extracted
stop unfinished = ok (record { frames = []; unfinished = unfinished })

abbrev pub store_frame : Bytes → Bool → Extracted → Extracted
store_frame frame valid more = record more { frames = (if valid then frame else []) ∷ more.frames }

-- A whole frame: it is checked and stored, and the loop goes on behind it.
unfoldable pub keep_frame : (Bytes → Result Extracted) → Bytes → Bytes → Result Extracted
keep_frame later frame rest = do
  valid ← check_frame frame
  more ← later rest
  ok (store_frame frame valid more)

-- What follows the search of one round, at the match and all behind it.
unfoldable pub extract_at : (Bytes → Result Extracted) → Bytes → Result Extracted
extract_at later found =
    if ltb 5 (length found)
    then (do
      data_length ← read_le 2 found 4
      let size = data_length + 8
      if ltb (length found - 5) (data_length + 3)
          then stop found
          else keep_frame later (take size found) (drop size found))
    else stop found

-- The rounds of the loop, one for each slot of `frames_` that is left; the buffer from
-- `bufferBegin` on.
unfoldable pub extract_frames : ℕ → Bytes → Result Extracted
extract_frames zero buffer = stop []
extract_frames (suc slots) buffer = extract_at (extract_frames slots) (search_sync buffer)

abbrev pub max_number_of_frames : ℕ
max_number_of_frames = 300
