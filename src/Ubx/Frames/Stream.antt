-- ===== src/Ubx/Frames/Stream.antt =====
-- `extractFrames` of src/ublox/UbxParser.cpp on a stream of whole frames with noise between them.
use gnsshat.Base.{
  ℕ, suc, ◌+◌, ◌≡◌, refl, sym, ap, ◌∙◌, List, [], ◌∷◌, ◌++◌, map, append_assoc, take, drop,
  take-length_append, drop-length_append, length, length-append, All, arith, Bytes, Result, ok, err,
  ◌>>=◌, read_le-append,
}
use gnsshat.Ubx.Frames.{Extracted, search_sync, keep_frame, extract_at, extract_frames}
use gnsshat.Ubx.Frames.Search.{NoSync, search_sync_gap}
use gnsshat.Ubx.Frames.Rounds.{IsWhole, extract_at_whole}
use gnsshat.Ubx.Frames.Sound.{IsFrame}

-- The result of a later part of a buffer, behind the frames of an earlier one.
abbrev pub prepend : List Bytes → Result Extracted → Result Extracted
prepend frames result = result >>= λ more. ok (record more { frames = frames ++ more.frames })

pub prepend-nil : (result : Result Extracted) → prepend [] result ≡ result
prepend-nil (ok more) = refl
prepend-nil (err e) = refl

pub prepend-prepend :
    (xs ys : List Bytes) (result : Result Extracted)
    → prepend xs (prepend ys result) ≡ prepend (xs ++ ys) result
prepend-prepend xs ys (ok more) =
    ap (λ frames. ok (record more { frames = frames })) (sym (append_assoc xs ys more.frames))
prepend-prepend xs ys (err e) = refl

search_sync_frame :
    (gap frame rest : Bytes)
    → NoSync gap
    → IsFrame frame
    → search_sync (gap ++ frame ++ rest) ≡ frame ++ rest
search_sync_frame gap frame rest quiet f =
    let (tail, e) = f.synced in
    rw (append_assoc gap frame rest, e) (search_sync_gap gap (tail ++ rest) quiet)

frame_IsWhole : (frame rest : Bytes) (f : IsFrame frame) → IsWhole f.payload_length (frame ++ rest)
frame_IsWhole frame rest f = (
  read_le-append 2 frame rest 4 (omega (arith, f.sized)) ∙ f.announced,
  omega (arith, f.sized, length-append frame rest),
)

keep_checked :
    (later : Bytes → Result Extracted) (frame rest : Bytes)
    → IsFrame frame
    → keep_frame later frame rest ≡ prepend (frame ∷ []) (later rest)
unfolding keep_frame
keep_checked later frame rest f = rw f.checked

-- One frame is taken whole, noise before it is passed over, and what follows is left for later.
pub extract_frame_step :
    (slots : ℕ) (gap frame rest : Bytes)
    → NoSync gap
    → IsFrame frame
    → extract_frames (suc slots) (gap ++ frame ++ rest)
      ≡ prepend (frame ∷ []) (extract_frames slots rest)
unfolding extract_frames
extract_frame_step slots gap frame rest quiet f =
    let later = extract_frames slots in
    ap (extract_at later) (search_sync_frame gap frame rest quiet f)
    ∙ extract_at_whole later (frame ++ rest) f.payload_length (frame_IsWhole frame rest f)
    ∙ ap (λ n. keep_frame later (take n (frame ++ rest)) (drop n (frame ++ rest))) (sym f.sized)
    ∙ rw (take-length_append frame rest, drop-length_append frame rest)
        (keep_checked later frame rest f)

-- Noise and the frame behind it.
abbrev pub Item : Type 0
Item = Bytes × Bytes

abbrev pub IsItem : Item → Type 0
IsItem item = NoSync item.0 × IsFrame item.1

abbrev pub stream : List Item → Bytes → Bytes
stream [] tail = tail
stream (item ∷ items) tail = item.0 ++ item.1 ++ stream items tail

-- From a stream of whole frames, with noise between them that holds no sync characters, exactly
-- these frames are extracted, in order, and the bytes behind them are treated as a buffer of their
-- own with the slots that are left.
pub extract_frames-stream :
    (items : List Item) (slots : ℕ) (tail : Bytes)
    → All IsItem items
    → extract_frames (length items + slots) (stream items tail)
      ≡ prepend (map (λ item. item.1) items) (extract_frames slots tail)
extract_frames-stream [] slots tail h =
    ap (λ n. extract_frames n tail) (omega arith) ∙ sym (prepend-nil (extract_frames slots tail))
extract_frames-stream (item ∷ items) slots tail h =
    ap (λ n. extract_frames n (stream (item ∷ items) tail)) (omega arith)
    ∙ extract_frame_step (length items + slots) item.0 item.1 (stream items tail) h.0.0 h.0.1
    ∙ ap (prepend (item.1 ∷ [])) (extract_frames-stream items slots tail h.1)
    ∙ prepend-prepend (item.1 ∷ []) (map (λ i. i.1) items) (extract_frames slots tail)
