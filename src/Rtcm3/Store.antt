-- ===== src/Rtcm3/Store.antt =====
-- src/ublox/Rtcm3Store.cpp and `parse` of src/ublox/Rtcm3Parser.cpp. Whether the guard is taken in
-- time is an input of each operation; an operation that misses it changes nothing.
pub mod Latest
use gnsshat.Base.{
  ℕ, zero, suc, ◌+◌, Bool, true, false, List, [], ◌∷◌, ◌++◌, Option, none, some, ◌==◌,
  if◌then◌else◌, length, drop, Bytes, Result, ok, ◌>>=◌,
}
use gnsshat.Messages.Pairs.{ConfigKeyValue}
use gnsshat.Rtcm3.Parser.{extract_rtcm3_frames, get_frame_id, max_number_of_rtcm3_frames}
use gnsshat.Settings.{Settings, find, assign, get_value}
use gnsshat.Ubx.Frames.{Extracted}

-- `frames_` by message number, and `incomingFrames_`.
pub record Rtcm3Store : Type 0 where
  pub frames : Settings
  pub incoming_frames : List Bytes

-- `std::copy` of the new bytes over the old ones.
abbrev pub copy_over : Bytes → Bytes → Bytes
copy_over new old = new ++ drop (length new) old

-- What becomes of the frame that is stored.
abbrev pub replaced : Option Bytes → Bytes → Bytes
replaced none new = new
replaced (some old) new = if length old == length new then copy_over new old else new

unfoldable pub update_frame : Bool → Rtcm3Store → ℕ → Bytes → Rtcm3Store
update_frame acquired store id new =
    if acquired
    then record store { frames = assign store.frames id (replaced (find store.frames id) new) }
    else store

unfoldable pub update_frames : Bool → Rtcm3Store → List Bytes → Rtcm3Store
update_frames acquired store new =
    if acquired then record store { incoming_frames = new } else store

unfoldable pub get_frame : Bool → Rtcm3Store → ℕ → Bytes
get_frame acquired store id = if acquired then get_value store.frames id else []

abbrev pub push_found : Option Bytes → List Bytes → List Bytes
push_found none frames = frames
push_found (some frame) frames = frame ∷ frames

abbrev pub found_frames : Settings → List ℕ → List Bytes
found_frames frames [] = []
found_frames frames (id ∷ ids) = push_found (find frames id) (found_frames frames ids)

unfoldable pub get_frames : Bool → Rtcm3Store → List ℕ → List Bytes
get_frames acquired store ids = if acquired then found_frames store.frames ids else []

-- `waitForFrames`, once it was notified.
unfoldable pub take_frames : Bool → Rtcm3Store → List Bytes × Rtcm3Store
take_frames acquired store =
    if acquired then (store.incoming_frames, record store { incoming_frames = [] }) else ([], store)

-- A frame that failed its check is empty and is skipped.
unfoldable pub parse_frame : Bool → Rtcm3Store → Bytes → Result Rtcm3Store
parse_frame acquired store [] = ok store
parse_frame acquired store (b ∷ frame) = do
  id ← get_frame_id (b ∷ frame)
  ok (update_frame acquired store id (b ∷ frame))

-- The loop of `parse` from the frame at `index` on.
unfoldable pub parse_frames : (ℕ → Bool) → ℕ → Rtcm3Store → List Bytes → Result Rtcm3Store
parse_frames acquired index store [] = ok store
parse_frames acquired index store (frame ∷ frames) =
    parse_frame (acquired index) store frame >>= λ next.
    parse_frames acquired (index + 1) next frames

-- The store afterwards and the unfinished bytes.
unfoldable pub parse : (ℕ → Bool) → Rtcm3Store → Bytes → Result (Rtcm3Store × Bytes)
parse acquired store buffer = do
  extracted ← extract_rtcm3_frames max_number_of_rtcm3_frames buffer
  next ← parse_frames acquired 0 store extracted.frames
  ok (next, extracted.unfinished)
