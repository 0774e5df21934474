-- ===== src/Rtcm3/Parser/Resume.antt =====
-- The bytes that a call of `extractFrames` of src/ublox/Rtcm3Parser.cpp leaves, and those that come
-- next.
use gnsshat.Base.{
  ℕ, zero, suc, ◌+◌, ◌-◌, ◌<◌, ◌≡◌, refl, sym, ap, ◌∙◌, inl, inr, Bool, [], ◌∷◌, ◌++◌, take, drop,
  take-append_le, drop-append_le, length, length-append, arith, Bytes, Result, ok, if◌then◌else◌,
}
use gnsshat.Rtcm3.Parser.{
  find_preamble, check_rtcm3_frame, keep_rtcm3_frame, extract_rtcm3_at, extract_rtcm3_frames,
}
use gnsshat.Rtcm3.Parser.Rounds.{
  IsComplete, match_cases, round_complete, find_preamble-append, check_rtcm3_frame_ok,
  read_length-append,
}
use gnsshat.Rtcm3.Parser.Sound.{match_start, stops, keeps, extract_rtcm3_frames-IsExtraction}
use gnsshat.Ubx.Frames.{Extracted, store_frame}
use gnsshat.Ubx.Frames.Stream.{prepend, prepend-nil, prepend-prepend}

abbrev Resumes : ℕ → Bytes → Bytes → Extracted → Type 0
Resumes slots old new e =
    extract_rtcm3_frames slots (old ++ new)
    ≡ prepend e.frames (extract_rtcm3_frames (slots - length e.frames) (e.unfinished ++ new))

by_match :
    (slots : ℕ) (a b : Bytes)
    → find_preamble a ≡ find_preamble b
    → extract_rtcm3_frames (suc slots) a ≡ extract_rtcm3_frames (suc slots) b
unfolding extract_rtcm3_frames
by_match slots a b e = ap (extract_rtcm3_at (extract_rtcm3_frames slots)) e

from_start :
    (found more : Bytes)
    → ((rest : Bytes) × (found ≡ 0xD3 ∷ rest))
    → find_preamble (found ++ more) ≡ found ++ more
unfolding find_preamble
from_start found more (rest, e) = rw e refl

kept-prepend :
    (later : Bytes → Result Extracted) (frame rest : Bytes) (valid : Bool)
    → check_rtcm3_frame frame ≡ ok valid
    → keep_rtcm3_frame later frame rest ≡ prepend ((if valid then frame else []) ∷ []) (later rest)
unfolding keep_rtcm3_frame
kept-prepend later frame rest valid e = rw e

resume_complete :
    (slots : ℕ) (old new : Bytes) (n : ℕ) (valid : Bool) (more : Extracted)
    → ((rest : Bytes) × (find_preamble old ≡ 0xD3 ∷ rest))
    → IsComplete n (find_preamble old)
    → check_rtcm3_frame (take (n + 6) (find_preamble old)) ≡ ok valid
    → Resumes slots (drop (n + 6) (find_preamble old)) new more
    → Resumes (suc slots) old new (store_frame (take (n + 6) (find_preamble old)) valid more)
unfolding extract_rtcm3_frames
resume_complete slots old new n valid more start (announced, h) c ih =
    let match = find_preamble old in
    let later = extract_rtcm3_frames slots in
    let slot : Bytes = if valid then take (n + 6) match else [] in
    ap (extract_rtcm3_at later) (find_preamble-append old new ∙ from_start match new start)
    ∙ round_complete later (match ++ new) n (
      read_length-append match new (omega arith) ∙ announced,
      omega (arith, length-append match new),
    )
    ∙ rw (take-append_le (n + 6) match new h, drop-append_le (n + 6) match new h)
        (kept-prepend later (take (n + 6) match) (drop (n + 6) match ++ new) valid c)
    ∙ ap (prepend (slot ∷ [])) ih
    ∙ prepend-prepend (slot ∷ []) more.frames _
    ∙ ap (λ k. prepend (slot ∷ more.frames) (extract_rtcm3_frames k (more.unfinished ++ new)))
        (omega arith)

frames_same : {r : Result Extracted} {a b : Extracted} → r ≡ ok a → r ≡ ok b → a ≡ b
frames_same p q = cc

-- Wherever a stream is cut, its parts give what the whole gives: after a call that left a slot
-- free, the unfinished bytes with the next bytes behind them give the frames, and the new
-- unfinished bytes, that one call would have found with all bytes at hand and the same slots.
pub extract_rtcm3_frames-append :
    (slots : ℕ) (old new : Bytes) (e : Extracted)
    → extract_rtcm3_frames slots old ≡ ok e
    → length e.frames < slots
    → extract_rtcm3_frames slots (old ++ new)
      ≡ prepend e.frames (extract_rtcm3_frames (slots - length e.frames) (e.unfinished ++ new))
extract_rtcm3_frames-append zero old new e done room = absurd (omega arith)
extract_rtcm3_frames-append (suc slots) old new e done room =
    let match = find_preamble old in
    elim (match_cases match) [
      | inl u ↦
          let same = frames_same (stops slots old u) done in
          rw (← same) (
            by_match slots (old ++ new) (match ++ new) (find_preamble-append old new)
            ∙ ap (λ k. extract_rtcm3_frames k (match ++ new)) (omega arith)
            ∙ sym (prepend-nil _))
      | inr (n, whole) ↦
          let (valid, c) = check_rtcm3_frame_ok (take (n + 6) match) in
          let (more, later, _) = extract_rtcm3_frames-IsExtraction slots (drop (n + 6) match) in
          let same = frames_same (keeps slots old n whole c later) done in
          rw (← same) (
            resume_complete slots old new n valid more (match_start old (omega (arith, whole.1)))
              whole c
              (extract_rtcm3_frames-append slots (drop (n + 6) match) new more later
                (omega (arith, ap (λ r. length r.frames) same))))
    ]
