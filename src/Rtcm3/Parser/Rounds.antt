-- ===== src/Rtcm3/Parser/Rounds.antt =====
-- One round of `extractFrames` of src/ublox/Rtcm3Parser.cpp, by what stands at the match.
use gnsshat.Base.{
  ℕ, ◌+◌, ◌*◌, ◌%◌, ◌≤◌, ◌<◌, ◌≡◌, refl, ap, ◌⊎◌, inl, inr, Bool, false, ◌==◌, ==_iff, ltb→le,
  Bool-cases, ltb, lt→ltb, le→ltb, [], ◌∷◌, ◌++◌, length, take, drop, arith, Bytes, Result, ok,
  read_at_ok, read_at-append,
}
use native.Mathlib.Decide.{dec_lt}
use gnsshat.Rtcm3.Crc.{crc24q}
use gnsshat.Rtcm3.Crc.Table.{crc_loop_ok}
use gnsshat.Rtcm3.Parser.{
  find_preamble, read_length, received_crc, compare_crc, check_rtcm3_frame, keep_rtcm3_frame,
  extract_rtcm3_at,
}
use gnsshat.Ubx.Frames.{Extracted, stop}

-- The search: a part of the buffer that reaches to its end, empty or from the preamble on.
pub find_preamble_suffix :
    (buffer : Bytes) → (skipped : Bytes) × (buffer ≡ skipped ++ find_preamble buffer)
unfolding find_preamble
find_preamble_suffix [] = ([], refl)
find_preamble_suffix (x ∷ rest) =
    let (skipped, whole) = find_preamble_suffix rest in
    elim (Bool-cases (x == 0xD3)) [
      | inl here ↦ rw here ([], refl)
      | inr later ↦ rw later (x ∷ skipped, ap (◌∷◌ x) whole)
    ]

pub find_preamble_match :
    (buffer : Bytes)
    → (find_preamble buffer ≡ []) ⊎ ((rest : Bytes) × (find_preamble buffer ≡ 0xD3 ∷ rest))
unfolding find_preamble
find_preamble_match [] = inl refl
find_preamble_match (x ∷ rest) = elim (Bool-cases (x == 0xD3)) [
  | inl here ↦ rw here (inr (rest, ground arith))
  | inr later ↦ rw later (find_preamble_match rest)
]

-- With bytes behind the buffer, a match stays, and without one the search goes on in them.
pub find_preamble-append :
    (buffer more : Bytes)
    → find_preamble (buffer ++ more) ≡ find_preamble (find_preamble buffer ++ more)
unfolding find_preamble
find_preamble-append [] more = refl
find_preamble-append (x ∷ rest) more = elim (Bool-cases (x == 0xD3)) [
  | inl here ↦ rw (here) (rw (here) refl)
  | inr later ↦ rw (later) (find_preamble-append rest more)
]

pub read_length_ok : (frame : Bytes) → 2 < length frame → (n : ℕ) × (read_length frame ≡ ok n)
unfolding read_length
read_length_ok frame h =
    let (b1, e) = read_at_ok frame 1 (omega arith) in
    let (b2, f) = read_at_ok frame 2 h in (b1 % 4 * 256 + b2, rw (e, f))

pub read_length-append :
    (frame more : Bytes) → 2 < length frame → read_length (frame ++ more) ≡ read_length frame
unfolding read_length
read_length-append frame more h =
    rw (read_at-append frame more 1 (omega arith), read_at-append frame more 2 h)

compare_crc_ok :
    (frame : Bytes) (n : ℕ)
    → n + 3 ≤ length frame
    → (valid : Bool) × (compare_crc frame n ≡ ok valid)
unfolding compare_crc received_crc crc24q
compare_crc_ok frame n h =
    let (crc, e) = crc_loop_ok n frame 0 (omega arith) in
    let (b0, e0) = read_at_ok frame n (omega arith) in
    let (b1, e1) = read_at_ok frame (n + 1) (omega arith) in
    let (b2, e2) = read_at_ok frame (n + 2) (omega arith) in
    (crc == b0 * 65536 + b1 * 256 + b2, rw (e, e0, e1, e2))

-- The check returns, whatever the bytes are.
pub check_rtcm3_frame_ok : (frame : Bytes) → (valid : Bool) × (check_rtcm3_frame frame ≡ ok valid)
unfolding check_rtcm3_frame
check_rtcm3_frame_ok frame = elim (Bool-cases (ltb (length frame) 6)) [
  | inl short ↦ (false, rw (short))
  | inr long ↦
      let (n, e) = read_length_ok frame (omega (arith, ltb→le (length frame) 6 long)) in
      elim (Bool-cases (length frame == n + 6)) [
        | inl same ↦
            let (valid, c) =
              compare_crc_ok frame (3 + n)
                (omega (arith, (==_iff (length frame) (n + 6)).0 same)) in
            (valid, rw (long, e) (rw (same) c))
        | inr differ ↦ (false, rw (long, e) (rw (differ)))
      ]
]

-- The frame that begins here has not arrived whole: its length field, or the bytes it announces.
abbrev pub IsPartial : Bytes → Type 0
IsPartial found =
    (length found ≤ 2)
    ⊎ ((data_length : ℕ) × (read_length found ≡ ok data_length) × (length found < data_length + 6))

-- The frame that begins here announces so many bytes of data, and all of it is there.
abbrev pub IsComplete : ℕ → Bytes → Type 0
IsComplete data_length found =
    (read_length found ≡ ok data_length) × (data_length + 6 ≤ length found)

pub match_cases :
    (found : Bytes) → IsPartial found ⊎ ((data_length : ℕ) × IsComplete data_length found)
match_cases found = elim (dec_lt 2 (length found)) [
  | no short ↦ inl (inl (omega arith))
  | yes long ↦
      let (n, e) = read_length_ok found long in
      elim (dec_lt (length found) (n + 6)) [
        | yes cut ↦ inl (inr (n, e, cut))
        | no whole ↦ inr (n, (e, omega arith))
      ]
]

module _ (later : Bytes → Result Extracted) (found : Bytes) where
  partial_short : length found ≤ 2 → extract_rtcm3_at later found ≡ stop found
  unfolding extract_rtcm3_at
  partial_short h = rw (le→ltb 2 (length found) h)

  partial_cut :
      (n : ℕ)
      → 2 < length found
      → read_length found ≡ ok n
      → length found < n + 6
      → extract_rtcm3_at later found ≡ stop found
  unfolding extract_rtcm3_at
  partial_cut n long e h = rw (lt→ltb 2 (length found) long, e) (ground arith)

  pub round_partial : IsPartial found → extract_rtcm3_at later found ≡ stop found
  round_partial (inl short) = partial_short short
  round_partial (inr (n, e, cut)) = elim (dec_lt 2 (length found)) [
    | yes long ↦ partial_cut n long e cut
    | no short ↦ partial_short (omega arith)
  ]

  pub round_complete :
      (n : ℕ)
      → IsComplete n found
      → extract_rtcm3_at later found
        ≡ keep_rtcm3_frame later (take (n + 6) found) (drop (n + 6) found)
  unfolding extract_rtcm3_at
  round_complete n (e, h) = rw (lt→ltb 2 (length found) (omega arith), e) (ground arith)
