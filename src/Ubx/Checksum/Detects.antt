-- ===== src/Ubx/Checksum/Detects.antt =====
-- Corruptions that `checkFrame` of src/ublox/UbxParser.cpp cannot miss.
use gnsshat.Base.{
  ℕ, ◌+◌, ◌*◌, ◌≡◌, ◌≢◌, true, false, ◌∷◌, [], ◌++◌, length, length-append, arith, Bytes, IsByte,
  ok, ap,
}
use gnsshat.Ubx.Checksum.{check_frame}
use gnsshat.Ubx.Checksum.Sums.{sum, weighted_sum, check_frame_sums}

sum-append : (xs ys : Bytes) → sum (xs ++ ys) ≡ sum xs + sum ys
sum-append [] ys = omega arith
sum-append (x ∷ xs) ys = omega (arith, sum-append xs ys)

weighted_sum-append :
    (xs ys : Bytes)
    → weighted_sum (xs ++ ys) ≡ weighted_sum xs + length ys * sum xs + weighted_sum ys
weighted_sum-append [] ys = omega arith
weighted_sum-append (x ∷ xs) ys =
    omega (arith, weighted_sum-append xs ys, ap (λ (t : ℕ). t * x) (length-append xs ys))

module _ (s t : ℕ) (before after : Bytes) (x y a b : ℕ) where
  -- A frame that is accepted is rejected once any one byte between the sync characters and the
  -- checksum is replaced by another byte.
  pub check_frame_detects_change :
      IsByte x
      → IsByte y
      → x ≢ y
      → check_frame (s ∷ t ∷ ((before ++ x ∷ after) ++ a ∷ b ∷ [])) ≡ ok true
      → check_frame (s ∷ t ∷ ((before ++ y ∷ after) ++ a ∷ b ∷ [])) ≡ ok false
  check_frame_detects_change hx hy ne accepted = ground (
    arith,
    check_frame_sums s t (before ++ x ∷ after) a b,
    check_frame_sums s t (before ++ y ∷ after) a b,
    sum-append before (x ∷ after),
    sum-append before (y ∷ after),
  )

  -- A frame that is accepted is rejected once two different neighbouring bytes between the sync
  -- characters and the checksum are exchanged.
  pub check_frame_detects_swap :
      IsByte x
      → IsByte y
      → x ≢ y
      → check_frame (s ∷ t ∷ ((before ++ x ∷ y ∷ after) ++ a ∷ b ∷ [])) ≡ ok true
      → check_frame (s ∷ t ∷ ((before ++ y ∷ x ∷ after) ++ a ∷ b ∷ [])) ≡ ok false
  check_frame_detects_swap hx hy ne accepted = ground (
    arith,
    check_frame_sums s t (before ++ x ∷ y ∷ after) a b,
    check_frame_sums s t (before ++ y ∷ x ∷ after) a b,
    weighted_sum-append before (x ∷ y ∷ after),
    weighted_sum-append before (y ∷ x ∷ after),
  )
