-- ===== src/Ubx/Frames/Rounds.antt =====
-- One round of `extractFrames` of src/ublox/UbxParser.cpp, by what stands at the match.
use gnsshat.Base.{
  ℕ, ◌+◌, ◌≤◌, ◌<◌, ◌≡◌, ◌⊎◌, inl, inr, lt→ltb, le→ltb, length, take, drop, arith, Bytes, Result,
  ok, read_le, read_le_ok,
}
use gnsshat.Ubx.Frames.{Extracted, stop, keep_frame, extract_at}
use native.Mathlib.Decide.{dec_lt}

-- The frame that begins here has not arrived whole: its length field, or the bytes it announces.
abbrev pub IsUnfinished : Bytes → Type 0
IsUnfinished found =
    (length found ≤ 5)
    ⊎ ((data_length : ℕ) × (read_le 2 found 4 ≡ ok data_length) × (length found < data_length + 8))

-- The frame that begins here announces so many bytes of payload, and they are there.
abbrev pub IsWhole : ℕ → Bytes → Type 0
IsWhole data_length found = (read_le 2 found 4 ≡ ok data_length) × (data_length + 8 ≤ length found)

pub found_cases :
    (found : Bytes) → IsUnfinished found ⊎ ((data_length : ℕ) × IsWhole data_length found)
found_cases found = elim (dec_lt 5 (length found)) [
  | no short ↦ inl (inl (omega arith))
  | yes long ↦
      let (data_length, e) = read_le_ok 2 found 4 (omega arith) in
      elim (dec_lt (length found) (data_length + 8)) [
        | yes cut ↦ inl (inr (data_length, e, cut))
        | no whole ↦ inr (data_length, (e, omega arith))
      ]
]

module _ (later : Bytes → Result Extracted) (found : Bytes) where
  extract_at_short : length found ≤ 5 → extract_at later found ≡ stop found
  unfolding extract_at
  extract_at_short h = rw (le→ltb 5 (length found) h)

  extract_at_cut :
      (data_length : ℕ)
      → 5 < length found
      → read_le 2 found 4 ≡ ok data_length
      → length found < data_length + 8
      → extract_at later found ≡ stop found
  unfolding extract_at
  extract_at_cut data_length long e h = rw (lt→ltb 5 (length found) long, e) (ground arith)

  pub extract_at_unfinished : IsUnfinished found → extract_at later found ≡ stop found
  extract_at_unfinished (inl short) = extract_at_short short
  extract_at_unfinished (inr (data_length, e, cut)) = elim (dec_lt 5 (length found)) [
    | yes long ↦ extract_at_cut data_length long e cut
    | no short ↦ extract_at_short (omega arith)
  ]

  pub extract_at_whole :
      (data_length : ℕ)
      → IsWhole data_length found
      → extract_at later found
        ≡ keep_frame later (take (data_length + 8) found) (drop (data_length + 8) found)
  unfolding extract_at
  extract_at_whole data_length (e, h) = rw (lt→ltb 5 (length found) (omega arith), e) (ground arith)
