-- ===== src/Ubx/Frames/Resume.antt =====
-- The reader keeps the unfinished bytes and puts the next ones behind them: src/ublox/Run.cpp,
-- over `extractFrames` of src/ublox/UbxParser.cpp.
use gnsshat.Base.{
  ℕ, zero, suc, ◌+◌, ◌-◌, ◌≡◌, ◌≢◌, sym, ap, ◌∙◌, inl, inr, Bool, [], ◌∷◌, ◌++◌, take, drop,
  take-append_le, drop-append_le, length, length-append, arith, Bytes, Result, ok, read_le-append,
  if◌then◌else◌,
}
use gnsshat.Ubx.Checksum.{check_frame}
use gnsshat.Ubx.Frames.{Extracted, store_frame, search_sync, keep_frame, extract_at, extract_frames}
use gnsshat.Ubx.Frames.Search.{search_sync-append, search_sync_idem}
use gnsshat.Ubx.Frames.Rounds.{IsWhole, found_cases, extract_at_whole}
use gnsshat.Ubx.Frames.Sound.{
  no_slots, round_stopped, round_kept, whole_check, extract_frames-IsSound,
}
use gnsshat.Ubx.Frames.Stream.{prepend, prepend-nil, prepend-prepend}

abbrev Resumes : ℕ → Bytes → Bytes → Extracted → Type 0
Resumes slots old new e =
    extract_frames slots (old ++ new)
    ≡ prepend e.frames (extract_frames (slots - length e.frames) (e.unfinished ++ new))

-- A round depends on the buffer by what the search finds.
extract_frames_found :
    (slots : ℕ) (a b : Bytes)
    → search_sync a ≡ search_sync b
    → extract_frames (suc slots) a ≡ extract_frames (suc slots) b
unfolding extract_frames
extract_frames_found slots a b e = ap (extract_at (extract_frames slots)) e

resume_unfinished :
    (slots : ℕ) (old new : Bytes)
    → search_sync old ≢ []
    → Resumes (suc slots) old new (record { frames = []; unfinished = search_sync old })
resume_unfinished slots old new found =
    extract_frames_found slots _ _ (
      search_sync-append old new found
      ∙ sym (
          search_sync-append (search_sync old) new (λ e. found (sym (search_sync_idem old) ∙ e))
          ∙ ap (λ bs. bs ++ new) (search_sync_idem old)))
    ∙ ap (λ k. extract_frames k (search_sync old ++ new)) (omega arith)
    ∙ sym (prepend-nil _)

keep_frame-prepend :
    (later : Bytes → Result Extracted) (frame rest : Bytes) (valid : Bool)
    → check_frame frame ≡ ok valid
    → keep_frame later frame rest ≡ prepend ((if valid then frame else []) ∷ []) (later rest)
unfolding keep_frame
keep_frame-prepend later frame rest valid e = rw e

resume_whole :
    (slots : ℕ) (old new : Bytes) (n : ℕ) (valid : Bool) (more : Extracted)
    → search_sync old ≢ []
    → IsWhole n (search_sync old)
    → check_frame (take (n + 8) (search_sync old)) ≡ ok valid
    → Resumes slots (drop (n + 8) (search_sync old)) new more
    → Resumes (suc slots) old new (store_frame (take (n + 8) (search_sync old)) valid more)
unfolding extract_frames
resume_whole slots old new n valid more found (announced, h) c ih =
    let match = search_sync old in
    let later = extract_frames slots in
    let slot : Bytes = if valid then take (n + 8) match else [] in
    ap (extract_at later) (search_sync-append old new found)
    ∙ extract_at_whole later (match ++ new) n (
      read_le-append 2 match new 4 (omega arith) ∙ announced,
      omega (arith, length-append match new),
    )
    ∙ rw (take-append_le (n + 8) match new h, drop-append_le (n + 8) match new h)
        (keep_frame-prepend later (take (n + 8) match) (drop (n + 8) match ++ new) valid c)
    ∙ ap (prepend (slot ∷ [])) ih
    ∙ prepend-prepend (slot ∷ []) more.frames _
    ∙ ap (λ k. prepend (slot ∷ more.frames) (extract_frames k (more.unfinished ++ new)))
        (omega arith)

unfinished_same : {a b : Extracted} → a ≡ b → a.unfinished ≡ b.unfinished
unfinished_same e = ap (λ r. r.unfinished) e

same_result : {r : Result Extracted} {a b : Extracted} → r ≡ ok a → r ≡ ok b → a ≡ b
same_result p q = cc

-- Where a call left unfinished bytes, the bytes that come next behind them give the frames, and the
-- new unfinished bytes, that one call would have found with all bytes at hand and the same slots.
pub extract_frames-append :
    (slots : ℕ) (old new : Bytes) (e : Extracted)
    → extract_frames slots old ≡ ok e
    → e.unfinished ≢ []
    → extract_frames slots (old ++ new)
      ≡ prepend e.frames (extract_frames (slots - length e.frames) (e.unfinished ++ new))
extract_frames-append zero old new e done left =
    absurd (left (unfinished_same (same_result done (no_slots old))))
extract_frames-append (suc slots) old new e done left =
    let match = search_sync old in
    elim (found_cases match) [
      | inl u ↦
          let same = same_result (round_stopped slots old u) done in
          rw (← same)
            (resume_unfinished slots old new (λ none. left (sym (unfinished_same same) ∙ none)))
      | inr (n, whole) ↦
          let (valid, c) = whole_check match n whole.1 in
          let (more, later, _) = extract_frames-IsSound slots (drop (n + 8) match) in
          let same = same_result (round_kept slots old n whole c later) done in
          rw (← same) (
            resume_whole slots old new n valid more
              (λ none. absurd (omega (arith, ap length none, whole.1))) whole c
              (extract_frames-append slots (drop (n + 8) match) new more later
                (λ none. left (sym (unfinished_same same) ∙ none))))
    ]
