-- ===== src/Ubx/Checksum/Sums.antt =====
-- The checksum as two sums modulo 256, and the frames that pass it.
use gnsshat.Base.{
  ℕ, suc, ◌+◌, ◌-◌, ◌*◌, ◌/◌, ◌%◌, ◌<◌, ◌≡◌, sym, ap, ◌∙◌, ◌&&◌, [], ◌∷◌, ◌++◌, ◌==◌, ==-refl,
  le→ltb, checked, read_at, ok_pair, append-nil, length, length-append, get_elem?,
  get_elem?-append_ge, arith, Bytes, ok,
}
use gnsshat.Ubx.Checksum.{checksum_loop, checksum, check_frame, add_checksum}
use native.Mathlib.Nat.{div-add-mod}

abbrev pub sum : Bytes → ℕ
sum [] = 0
sum (b ∷ bs) = b + sum bs

-- Each byte counts as often as there are bytes from it to the end.
abbrev pub weighted_sum : Bytes → ℕ
weighted_sum [] = 0
weighted_sum (b ∷ bs) = suc (length bs) * b + weighted_sum bs

carry : (n a : ℕ) → n * (a % 256) + 256 * (n * (a / 256)) ≡ n * a
carry n a = omega (arith, ap (λ (t : ℕ). n * t) (div-add-mod a 256))

checksum_loop_sums :
    (bs rest : Bytes) (cka ckb : ℕ)
    → cka < 256
    → ckb < 256
    → checksum_loop (length bs) (bs ++ rest) cka ckb
      ≡ ok ((cka + sum bs) % 256, (ckb + length bs * cka + weighted_sum bs) % 256)
unfolding checksum_loop
checksum_loop_sums [] rest cka ckb h k = ground arith
checksum_loop_sums (b ∷ bs) rest cka ckb h k =
    let cka' : ℕ = (cka + b) % 256 in
    checksum_loop_sums bs rest cka' ((ckb + cka') % 256) (omega arith) (omega arith)
    ∙ ok_pair (omega arith) (omega (arith, carry (length bs) (cka + b)))

length-trailer : (body : Bytes) (a b : ℕ) → length (body ++ a ∷ b ∷ []) ≡ length body + 2
length-trailer body a b = length-append body (a ∷ b ∷ [])

module _ (s t : ℕ) (body : Bytes) (a b : ℕ) where
  abbrev framed : Bytes
  framed = s ∷ t ∷ (body ++ a ∷ b ∷ [])

  read_trailer :
      (k i : ℕ) → k ≡ suc (suc (length body + i)) → read_at framed k ≡ read_at (a ∷ b ∷ []) i
  read_trailer k i e = rw e (
      ap checked (
        get_elem?-append_ge body (a ∷ b ∷ []) (length body + i) (omega arith)
        ∙ ap (get_elem? (a ∷ b ∷ [])) (omega arith)))

  read_cka : read_at framed (length framed - 2) ≡ ok a
  read_cka = read_trailer _ 0 (omega (arith, length-trailer body a b))

  read_ckb : read_at framed (length framed - 1) ≡ ok b
  read_ckb = read_trailer _ 1 (omega (arith, length-trailer body a b))

  checksum_sums : checksum framed 2 ≡ ok (sum body % 256, weighted_sum body % 256)
  unfolding checksum
  checksum_sums = rw (length-trailer body a b) (
      rw (le→ltb (suc (suc (length body + 2))) 2 (omega arith)) (
        ap (λ n. checksum_loop n (body ++ a ∷ b ∷ []) 0 0) (omega arith)
        ∙ checksum_loop_sums body (a ∷ b ∷ []) 0 0 (omega arith) (omega arith)
        ∙ ok_pair (omega arith) (omega arith)))

  -- A frame is accepted exactly when its last two bytes are the two sums over the bytes between
  -- the sync characters and them; the reads stay inside the frame.
  pub check_frame_sums :
      check_frame framed ≡ ok ((sum body % 256 == a) && (weighted_sum body % 256 == b))
  unfolding check_frame
  check_frame_sums = rw (checksum_sums, read_cka, read_ckb)

checksum_whole :
    (s t : ℕ) (body : Bytes)
    → checksum (s ∷ t ∷ body) 0 ≡ ok (sum body % 256, weighted_sum body % 256)
unfolding checksum
checksum_whole s t body = rw (le→ltb (suc (suc (length body))) 0 (omega arith)) (
    ap (λ n. checksum_loop n body 0 0) (omega arith)
    ∙ ap (λ bs. checksum_loop (length body) bs 0 0) (sym (append-nil body))
    ∙ checksum_loop_sums body [] 0 0 (omega arith) (omega arith)
    ∙ ok_pair (omega arith) (omega arith))

pub add_checksum_sums :
    (s t : ℕ) (body : Bytes)
    → add_checksum (s ∷ t ∷ body)
      ≡ ok (s ∷ t ∷ (body ++ sum body % 256 ∷ weighted_sum body % 256 ∷ []))
unfolding add_checksum
add_checksum_sums s t body = rw (
  checksum_whole s t body,
  check_frame_sums s t body (sum body % 256) (weighted_sum body % 256),
  ==-refl (sum body % 256),
  ==-refl (weighted_sum body % 256),
)
