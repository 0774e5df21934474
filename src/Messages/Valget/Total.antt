-- ===== src/Messages/Valget/Total.antt =====
-- `deserialize` of src/ublox/ubxmsg/UBX_CFG_VALGET.hpp on any frame.
use gnsshat.Base.{
  ℕ, zero, suc, ◌+◌, ◌≤◌, ◌<◌, inl, inr, Bool-cases, ltb, leb, ltb→le, List, [], ◌∷◌, length, arith,
  Bytes, IsSafe, >>=-IsSafe, read_at_ok, read_le_ok, read_range_ok,
}
use gnsshat.Messages.KeySizes.{get_key_size}
use gnsshat.Messages.KeySizes.Widths.{get_key_size-IsSafe}
use gnsshat.Messages.Pairs.{ConfigKeyValue}
use gnsshat.Messages.Valget.{response_pairs, some_pairs, valget_deserialize}

response_pairs-IsSafe :
    (fuel : ℕ) (frame : Bytes) (offset : ℕ)
    → offset ≤ length frame
    → length frame < fuel + offset
    → IsSafe (response_pairs fuel frame offset)
unfolding response_pairs
response_pairs-IsSafe zero frame offset h k = absurd (omega arith)
response_pairs-IsSafe (suc fuel) frame offset h k =
    elim (Bool-cases (leb (offset + 4) (length frame))) [
      | inr done ↦ rw done tt
      | inl more ↦
          let (key, e) = read_le_ok 4 frame offset (ground arith) in
          rw (more, e)
            (>>=-IsSafe (get_key_size key) _ (get_key_size-IsSafe key) (λ size _.
              elim (Bool-cases (ltb (length frame) (offset + 4 + size))) [
                | inl short ↦ rw short tt
                | inr fits ↦
                    rw (fits, read_range_ok frame (offset + 4) size (ltb→le _ _ fits))
                      (>>=-IsSafe (response_pairs fuel frame (offset + 4 + size)) _
                        (response_pairs-IsSafe fuel frame (offset + 4 + size) (ground arith)
                          (omega arith))
                        (λ pairs _. tt))
              ]))
    ]

some_pairs-IsSafe : (pairs : List ConfigKeyValue) → IsSafe (some_pairs pairs)
some_pairs-IsSafe [] = tt
some_pairs-IsSafe (pair ∷ pairs) = tt

-- On any frame, of any size, `deserialize` reads nothing outside the frame, neither a number nor the
-- bytes of a value, and ends, with a message or with one of its exceptions.
pub valget_deserialize-IsSafe : (frame : Bytes) → IsSafe (valget_deserialize frame)
unfolding valget_deserialize
valget_deserialize-IsSafe frame = elim (Bool-cases (ltb (length frame) 10)) [
  | inl short ↦ rw short tt
  | inr long ↦
      let size : 10 ≤ length frame = ltb→le (length frame) 10 long in
      let (version, v) = read_at_ok frame 6 (omega arith) in
      let (layer, l) = read_at_ok frame 7 (omega arith) in
      let (position, p) = read_le_ok 2 frame 8 (omega arith) in
      rw (long, v, l, p)
        (>>=-IsSafe (response_pairs (length frame) frame 10) _
          (response_pairs-IsSafe (length frame) frame 10 size (omega arith))
          (λ found _. >>=-IsSafe (some_pairs found) _ (some_pairs-IsSafe found) (λ pairs _. tt)))
]
