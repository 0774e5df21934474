-- ===== src/Rtcm3/Parser/Sound.antt =====
-- What `extractFrames` of src/ublox/Rtcm3Parser.cpp hands on, for any buffer.
use gnsshat.Base.{
  ℕ, zero, suc, ◌+◌, ◌≤◌, ◌<◌, ◌≡◌, refl, sym, ap, ◌∙◌, ◌⊎◌, inl, inr, Bool, true, false, [], ◌∷◌,
  append-nil, take, drop, take-append-drop, length, length-take_le, All, arith, Bytes, Result, ok,
  if◌then◌else◌,
}
use gnsshat.Rtcm3.Parser.{
  find_preamble, read_length, check_rtcm3_frame, keep_rtcm3_frame, extract_rtcm3_frames,
}
use gnsshat.Rtcm3.Parser.Rounds.{
  IsPartial, IsComplete, match_cases, round_partial, round_complete, find_preamble_suffix,
  find_preamble_match, check_rtcm3_frame_ok, read_length-append,
}
use gnsshat.Ubx.Frames.{Extracted, store_frame}
use gnsshat.Ubx.Frames.Sound.{IsSuffix, IsSuffix-trans}

-- The preamble, a length that agrees with the size, and a CRC that passes.
pub record IsRtcm3Frame (frame : Bytes) : Type 0 where
  pub data_length : ℕ
  pub preamble : (rest : Bytes) × (frame ≡ 0xD3 ∷ rest)
  pub announced : read_length frame ≡ ok data_length
  pub sized : length frame ≡ data_length + 6
  pub passed : check_rtcm3_frame frame ≡ ok true

-- What one call over `slots` slots makes of a buffer.
pub record IsExtraction (slots : ℕ) (buffer : Bytes) (result : Extracted) : Type 0 where
  pub fits : length result.frames ≤ slots
  pub framed : All (λ frame. (frame ≡ []) ⊎ IsRtcm3Frame frame) result.frames
  pub unfinished_suffix : IsSuffix result.unfinished buffer
  pub unfinished_part : IsPartial result.unfinished

read_length-take :
    (n : ℕ) (found : Bytes)
    → 2 < n
    → n ≤ length found
    → read_length (take n found) ≡ read_length found
read_length-take n found h k =
    sym (read_length-append (take n found) (drop n found) (omega (arith, length-take_le n found k)))
    ∙ ap read_length (take-append-drop n found)

cut_IsRtcm3Frame :
    (found : Bytes) (n : ℕ)
    → ((rest : Bytes) × (found ≡ 0xD3 ∷ rest))
    → IsComplete n found
    → check_rtcm3_frame (take (n + 6) found) ≡ ok true
    → IsRtcm3Frame (take (n + 6) found)
cut_IsRtcm3Frame found n (rest, e) (announced, h) passed = record {
  data_length = n;
  preamble = let k : n + 6 ≡ suc (n + 5) = omega arith in (take (n + 5) rest, rw (e, k));
  announced = read_length-take (n + 6) found (omega arith) h ∙ announced;
  sized = length-take_le (n + 6) found h;
  passed = passed;
}

pub keep_rtcm3_frame_ok :
    (later : Bytes → Result Extracted) (frame rest : Bytes) {valid : Bool} {more : Extracted}
    → check_rtcm3_frame frame ≡ ok valid
    → later rest ≡ ok more
    → keep_rtcm3_frame later frame rest ≡ ok (store_frame frame valid more)
unfolding keep_rtcm3_frame
keep_rtcm3_frame_ok later frame rest e f = rw (e, f)

module _ (slots : ℕ) (buffer : Bytes) where
  pub stops :
      IsPartial (find_preamble buffer)
      → extract_rtcm3_frames (suc slots) buffer
        ≡ ok (record { frames = []; unfinished = find_preamble buffer })
  unfolding extract_rtcm3_frames
  stops u = round_partial (extract_rtcm3_frames slots) (find_preamble buffer) u

  pub keeps :
      (n : ℕ) {valid : Bool} {more : Extracted}
      → IsComplete n (find_preamble buffer)
      → check_rtcm3_frame (take (n + 6) (find_preamble buffer)) ≡ ok valid
      → extract_rtcm3_frames slots (drop (n + 6) (find_preamble buffer)) ≡ ok more
      → extract_rtcm3_frames (suc slots) buffer
        ≡ ok (store_frame (take (n + 6) (find_preamble buffer)) valid more)
  unfolding extract_rtcm3_frames
  keeps n whole c later =
      round_complete (extract_rtcm3_frames slots) (find_preamble buffer) n whole
      ∙ keep_rtcm3_frame_ok (extract_rtcm3_frames slots) _ _ c later

stored_IsExtraction :
    (slots : ℕ) (buffer found : Bytes) (n : ℕ) (valid : Bool) (more : Extracted)
    → IsSuffix found buffer
    → ((rest : Bytes) × (found ≡ 0xD3 ∷ rest))
    → IsComplete n found
    → check_rtcm3_frame (take (n + 6) found) ≡ ok valid
    → IsExtraction slots (drop (n + 6) found) more
    → IsExtraction (suc slots) buffer (store_frame (take (n + 6) found) valid more)
stored_IsExtraction slots buffer found n valid more s start whole c later = record {
  fits = omega (arith, later.fits);
  framed = (slot valid c, later.framed);
  unfinished_suffix =
      IsSuffix-trans later.unfinished_suffix
        (IsSuffix-trans (take (n + 6) found, sym (take-append-drop (n + 6) found)) s);
  unfinished_part = later.unfinished_part;
}
  where
    slot :
        (valid : Bool)
        → check_rtcm3_frame (take (n + 6) found) ≡ ok valid
        → let stored = (if valid then take (n + 6) found else []) in
          (stored ≡ []) ⊎ IsRtcm3Frame stored
    slot true c = inr (cut_IsRtcm3Frame found n start whole c)
    slot false c = inl refl

pub match_start :
    (buffer : Bytes)
    → 0 < length (find_preamble buffer)
    → (rest : Bytes) × (find_preamble buffer ≡ 0xD3 ∷ rest)
match_start buffer h = elim (find_preamble_match buffer) [
  | inl e ↦ absurd (omega (arith, ap length e))
  | inr m ↦ m
]

-- On any buffer the extraction returns, without a read outside the buffer; each frame that it hands
-- on starts with the preamble, has the size that its length announces and passes the CRC, a frame
-- that fails is left empty, the frames fit the slots, and the unfinished bytes are the end of the
-- buffer and hold no whole frame at their start.
pub extract_rtcm3_frames-IsExtraction :
    (slots : ℕ) (buffer : Bytes)
    → (result : Extracted) × (extract_rtcm3_frames slots buffer ≡ ok result)
      × IsExtraction slots buffer result
unfolding extract_rtcm3_frames
extract_rtcm3_frames-IsExtraction zero buffer = (
  _,
  refl,
  record {
    fits = omega arith;
    framed = tt;
    unfinished_suffix = (buffer, sym (append-nil buffer));
    unfinished_part = inl (omega arith);
  },
)
extract_rtcm3_frames-IsExtraction (suc slots) buffer =
    let found = find_preamble buffer in
    elim (match_cases found) [
      | inl u ↦ (
        _,
        stops slots buffer u,
        record {
          fits = omega arith;
          framed = tt;
          unfinished_suffix = find_preamble_suffix buffer;
          unfinished_part = u;
        },
      )
      | inr (n, whole) ↦
          let (valid, c) = check_rtcm3_frame_ok (take (n + 6) found) in
          let (more, e, later) = extract_rtcm3_frames-IsExtraction slots (drop (n + 6) found) in
          (
            store_frame (take (n + 6) found) valid more,
            keeps slots buffer n whole c e,
            stored_IsExtraction slots buffer found n valid more (find_preamble_suffix buffer)
                (match_start buffer (omega (arith, whole.1))) whole c later,
          )
    ]
