-- ===== src/Ubx/Tests.antt =====
-- Runs of the code of src/ublox/UbxParser.cpp, and the theorems at concrete inputs.
use gnsshat.Base.{◌≡◌, refl, true, false, [], ◌∷◌, ◌++◌, List, arith, Bytes, ok, read_le}
use gnsshat.Ubx.Checksum.{checksum_loop, checksum, check_frame, add_checksum}
use gnsshat.Ubx.Checksum.Detects.{check_frame_detects_change, check_frame_detects_swap}
use gnsshat.Ubx.Frames.{
  Extracted, search_sync, keep_frame, extract_at, extract_frames, max_number_of_frames,
}
use gnsshat.Ubx.Frames.Sound.{IsFrame, IsSound, extract_frames-IsSound}
use gnsshat.Ubx.Frames.Stream.{Item, prepend, stream, extract_frames-stream}
use gnsshat.Ubx.Frames.Resume.{extract_frames-append}
use gnsshat.Ubx.Frames.Cut.{extract_frames_cut}

-- The poll for UBX-CFG-RATE.
abbrev poll_rest : Bytes
poll_rest = 0x62 ∷ 0x06 ∷ 0x08 ∷ 0x00 ∷ 0x00 ∷ 0x0E ∷ 0x30 ∷ []

abbrev poll_rate : Bytes
poll_rate = 0xB5 ∷ poll_rest

-- A frame whose checksum is wrong.
abbrev spoilt : Bytes
spoilt = 0xB5 ∷ 0x62 ∷ 0x06 ∷ 0x08 ∷ 0x00 ∷ 0x00 ∷ 0x0F ∷ 0x30 ∷ []

poll_rate_built : add_checksum (0xB5 ∷ 0x62 ∷ 0x06 ∷ 0x08 ∷ 0x00 ∷ 0x00 ∷ []) ≡ ok poll_rate
unfolding add_checksum check_frame checksum checksum_loop
poll_rate_built = refl

poll_rate_accepted : check_frame poll_rate ≡ ok true
unfolding check_frame checksum checksum_loop
poll_rate_accepted = refl

poll_rate-IsFrame : IsFrame poll_rate
unfolding read_le
poll_rate-IsFrame = record {
  payload_length = 0;
  synced = (_, refl);
  announced = refl;
  sized = refl;
  checked = poll_rate_accepted;
}

-- Noise, a spoilt frame, a good frame and the beginning of another one.
abbrev received : Bytes
received = 0xFF ∷ (spoilt ++ poll_rate) ++ 0xB5 ∷ 0x62 ∷ 0x06 ∷ []

abbrev found : Extracted
found = record { frames = [] ∷ poll_rate ∷ []; unfinished = 0xB5 ∷ 0x62 ∷ 0x06 ∷ [] }

received_extracted : extract_frames max_number_of_frames received ≡ ok found
unfolding extract_frames search_sync extract_at keep_frame read_le check_frame checksum
    checksum_loop
received_extracted = refl

check_frame_detects_change_example :
    check_frame (0xB5 ∷ 0x62 ∷ 0x07 ∷ 0x08 ∷ 0x00 ∷ 0x00 ∷ 0x0E ∷ 0x30 ∷ []) ≡ ok false
check_frame_detects_change_example =
    check_frame_detects_change 0xB5 0x62 [] (0x08 ∷ 0x00 ∷ 0x00 ∷ []) 0x06 0x07 0x0E 0x30
      (omega arith) (omega arith) (omega arith) poll_rate_accepted

check_frame_detects_swap_example :
    check_frame (0xB5 ∷ 0x62 ∷ 0x08 ∷ 0x06 ∷ 0x00 ∷ 0x00 ∷ 0x0E ∷ 0x30 ∷ []) ≡ ok false
check_frame_detects_swap_example =
    check_frame_detects_swap 0xB5 0x62 [] (0x00 ∷ 0x00 ∷ []) 0x06 0x08 0x0E 0x30 (omega arith)
      (omega arith) (omega arith) poll_rate_accepted

extract_frames-IsSound_example :
    (result : Extracted) × (extract_frames max_number_of_frames received ≡ ok result)
    × IsSound max_number_of_frames received result
extract_frames-IsSound_example = extract_frames-IsSound max_number_of_frames received

quiet : search_sync (0xFF ∷ 0xB5 ∷ []) ≡ []
unfolding search_sync
quiet = refl

silent : search_sync (0xB5 ∷ []) ≡ []
unfolding search_sync
silent = refl

abbrev items : List Item
items = (0xFF ∷ [], poll_rate) ∷ ([], poll_rate) ∷ []

extract_frames-stream_example :
    extract_frames max_number_of_frames (stream items [])
    ≡ prepend (poll_rate ∷ poll_rate ∷ []) (extract_frames 298 [])
extract_frames-stream_example =
    extract_frames-stream items 298 []
      ((quiet, poll_rate-IsFrame), ((silent, poll_rate-IsFrame), tt))

extract_frames_cut_example :
    extract_frames 1 (0xFF ∷ 0xB5 ∷ []) ≡ ok (record { frames = []; unfinished = [] })
unfolding search_sync
extract_frames_cut_example =
    (extract_frames_cut 0 (0xFF ∷ []) poll_rest quiet poll_rate-IsFrame refl).1

extract_frames-append_example :
    extract_frames max_number_of_frames (received ++ 0x08 ∷ [])
    ≡ prepend found.frames (extract_frames 298 (found.unfinished ++ 0x08 ∷ []))
extract_frames-append_example =
    extract_frames-append max_number_of_frames received (0x08 ∷ []) found received_extracted
      (λ e. cc)
