-- ===== src/Ubx/Frames/Sound.antt =====
-- What `extractFrames` of src/ublox/UbxParser.cpp hands on, for any buffer.
use gnsshat.Base.{
  ℕ, zero, suc, ◌+◌, ◌≤◌, ◌≡◌, refl, sym, ap, ◌∙◌, ◌⊎◌, inl, inr, Bool, true, false, [], ◌∷◌, ◌++◌,
  append-nil, append_assoc, take, drop, take-append-drop, length, length-take_le, All, arith, Bytes,
  Result, ok, read_le, read_le-take, if◌then◌else◌,
}
use gnsshat.Ubx.Checksum.{check_frame}
use gnsshat.Ubx.Checksum.Total.{check_frame_ok}
use gnsshat.Ubx.Frames.{Extracted, store_frame, search_sync, keep_frame, extract_frames}
use gnsshat.Ubx.Frames.Search.{search_sync_suffix, search_sync_match}
use gnsshat.Ubx.Frames.Rounds.{
  IsUnfinished, IsWhole, found_cases, extract_at_unfinished, extract_at_whole,
}

-- Sync characters, a length field that agrees with the size, and a checksum that passes.
pub record IsFrame (frame : Bytes) : Type 0 where
  pub payload_length : ℕ
  pub synced : (rest : Bytes) × (frame ≡ 0xB5 ∷ 0x62 ∷ rest)
  pub announced : read_le 2 frame 4 ≡ ok payload_length
  pub sized : length frame ≡ payload_length + 8
  pub checked : check_frame frame ≡ ok true

abbrev pub IsSuffix : Bytes → Bytes → Type 0
IsSuffix part whole = (front : Bytes) × (whole ≡ front ++ part)

-- What one call of `extractFrames` over `slots` slots makes of a buffer.
pub record IsSound (slots : ℕ) (buffer : Bytes) (result : Extracted) : Type 0 where
  pub fits : length result.frames ≤ slots
  pub framed : All (λ frame. (frame ≡ []) ⊎ IsFrame frame) result.frames
  pub unfinished_suffix : IsSuffix result.unfinished buffer
  pub unfinished_part : IsUnfinished result.unfinished

pub IsSuffix-trans : {a b c : Bytes} → IsSuffix a b → IsSuffix b c → IsSuffix a c
IsSuffix-trans {a} (front, e) (before, e') =
    (before ++ front, e' ∙ ap (◌++◌ before) e ∙ sym (append_assoc before front a))

-- The frame that a round cuts out, once it passes.
cut_IsFrame :
    (found : Bytes) (n : ℕ)
    → ((rest : Bytes) × (found ≡ 0xB5 ∷ 0x62 ∷ rest))
    → IsWhole n found
    → check_frame (take (n + 8) found) ≡ ok true
    → IsFrame (take (n + 8) found)
cut_IsFrame found n (rest, e) (announced, h) passed = record {
  payload_length = n;
  synced = let k : n + 8 ≡ suc (suc (n + 6)) = omega arith in (take (n + 6) rest, rw (e, k));
  announced = read_le-take 2 (n + 8) found 4 (omega arith) h ∙ announced;
  sized = length-take_le (n + 8) found h;
  checked = passed;
}

stop_IsSound :
    (slots : ℕ) (buffer found : Bytes)
    → IsSuffix found buffer
    → IsUnfinished found
    → IsSound slots buffer (record { frames = []; unfinished = found })
stop_IsSound slots buffer found s u = record {
  fits = omega arith;
  framed = tt;
  unfinished_suffix = s;
  unfinished_part = u;
}

pub keep_frame_ok :
    (later : Bytes → Result Extracted) (frame rest : Bytes) {valid : Bool} {more : Extracted}
    → check_frame frame ≡ ok valid
    → later rest ≡ ok more
    → keep_frame later frame rest ≡ ok (store_frame frame valid more)
unfolding keep_frame
keep_frame_ok later frame rest e f = rw (e, f)

pub no_slots :
    (buffer : Bytes) → extract_frames 0 buffer ≡ ok (record { frames = []; unfinished = [] })
unfolding extract_frames
no_slots buffer = refl

module _ (slots : ℕ) (buffer : Bytes) where
  pub round_stopped :
      IsUnfinished (search_sync buffer)
      → extract_frames (suc slots) buffer
        ≡ ok (record { frames = []; unfinished = search_sync buffer })
  unfolding extract_frames
  round_stopped u = extract_at_unfinished (extract_frames slots) (search_sync buffer) u

  pub round_kept :
      (n : ℕ) {valid : Bool} {more : Extracted}
      → IsWhole n (search_sync buffer)
      → check_frame (take (n + 8) (search_sync buffer)) ≡ ok valid
      → extract_frames slots (drop (n + 8) (search_sync buffer)) ≡ ok more
      → extract_frames (suc slots) buffer
        ≡ ok (store_frame (take (n + 8) (search_sync buffer)) valid more)
  unfolding extract_frames
  round_kept n whole c later =
      extract_at_whole (extract_frames slots) (search_sync buffer) n whole
      ∙ keep_frame_ok (extract_frames slots) _ _ c later

pub whole_check :
    (found : Bytes) (n : ℕ)
    → n + 8 ≤ length found
    → (valid : Bool) × (check_frame (take (n + 8) found) ≡ ok valid)
whole_check found n h =
    check_frame_ok (take (n + 8) found) (omega (arith, length-take_le (n + 8) found h))

store_IsSound :
    (slots : ℕ) (buffer found : Bytes) (n : ℕ) (valid : Bool) (more : Extracted)
    → IsSuffix found buffer
    → ((rest : Bytes) × (found ≡ 0xB5 ∷ 0x62 ∷ rest))
    → IsWhole n found
    → check_frame (take (n + 8) found) ≡ ok valid
    → IsSound slots (drop (n + 8) found) more
    → IsSound (suc slots) buffer (store_frame (take (n + 8) found) valid more)
store_IsSound slots buffer found n valid more s start whole c later = record {
  fits = omega arith;
  framed = (slot valid c, later.framed);
  unfinished_suffix =
      IsSuffix-trans later.unfinished_suffix
        (IsSuffix-trans (take (n + 8) found, sym (take-append-drop (n + 8) found)) s);
  unfinished_part = later.unfinished_part;
}
  where
    slot :
        (valid : Bool)
        → check_frame (take (n + 8) found) ≡ ok valid
        → let stored = (if valid then take (n + 8) found else []) in (stored ≡ []) ⊎ IsFrame stored
    slot true c = inr (cut_IsFrame found n start whole c)
    slot false c = inl refl

search_sync_start :
    (buffer : Bytes) (n : ℕ)
    → n + 8 ≤ length (search_sync buffer)
    → (rest : Bytes) × (search_sync buffer ≡ 0xB5 ∷ 0x62 ∷ rest)
search_sync_start buffer n h = elim (search_sync_match buffer) [
  | inl e ↦ absurd (omega (arith, ap length e))
  | inr m ↦ m
]

-- On any buffer the extraction returns, without a read outside the buffer; each frame that it hands
-- on starts with the sync characters, has the size that its length field announces and passes the
-- checksum, a frame that fails is left empty, the frames fit the slots, and the unfinished bytes are
-- the end of the buffer and hold no whole frame at their start.
pub extract_frames-IsSound :
    (slots : ℕ) (buffer : Bytes)
    → (result : Extracted) × (extract_frames slots buffer ≡ ok result) × IsSound slots buffer result
extract_frames-IsSound zero buffer = (
  _,
  no_slots buffer,
  stop_IsSound 0 buffer [] (buffer, sym (append-nil buffer)) (inl (omega arith)),
)
extract_frames-IsSound (suc slots) buffer =
    let found = search_sync buffer in
    elim (found_cases found) [
      | inl u ↦ (
        _,
        round_stopped slots buffer u,
        stop_IsSound (suc slots) buffer found (search_sync_suffix buffer) u,
      )
      | inr (n, whole) ↦
          let (valid, c) = whole_check found n whole.1 in
          let (more, e, later) = extract_frames-IsSound slots (drop (n + 8) found) in
          (
            store_frame (take (n + 8) found) valid more,
            round_kept slots buffer n whole c e,
            store_IsSound slots buffer found n valid more (search_sync_suffix buffer)
                (search_sync_start buffer n whole.1) whole c later,
          )
    ]
