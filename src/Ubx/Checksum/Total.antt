-- ===== src/Ubx/Checksum/Total.antt =====
-- `checkFrame` of src/ublox/UbxParser.cpp stays inside a frame of two bytes or more.
use gnsshat.Base.{
  ℕ, zero, suc, ◌+◌, ◌-◌, ◌%◌, ◌≤◌, ◌≡◌, refl, Bool, ◌&&◌, ◌==◌, [], ◌∷◌, le→ltb, length,
  length-drop, drop, arith, Bytes, ok, read_at_ok,
}
use gnsshat.Ubx.Checksum.{checksum_loop, checksum, check_frame}

checksum_loop_ok :
    (rounds : ℕ) (rest : Bytes) (cka ckb : ℕ)
    → rounds ≤ length rest
    → (c : ℕ × ℕ) × (checksum_loop rounds rest cka ckb ≡ ok c)
unfolding checksum_loop
checksum_loop_ok zero rest cka ckb h = ((cka, ckb), refl)
checksum_loop_ok (suc rounds) [] cka ckb h = absurd (omega arith)
checksum_loop_ok (suc rounds) (b ∷ rest) cka ckb h =
    checksum_loop_ok rounds rest ((cka + b) % 256) ((ckb + (cka + b) % 256) % 256) (omega arith)

checksum_ok :
    (frame : Bytes) (offset : ℕ)
    → offset ≤ length frame
    → (c : ℕ × ℕ) × (checksum frame offset ≡ ok c)
unfolding checksum
checksum_ok frame offset h =
    rw (le→ltb (length frame) offset h)
      (checksum_loop_ok _ (drop 2 frame) 0 0 (omega (arith, length-drop 2 frame)))

pub check_frame_ok :
    (frame : Bytes) → 2 ≤ length frame → (valid : Bool) × (check_frame frame ≡ ok valid)
unfolding check_frame
check_frame_ok frame h =
    let ((cka, ckb), sums) = checksum_ok frame 2 h in
    let (a, first) = read_at_ok frame (length frame - 2) (omega arith) in
    let (b, second) = read_at_ok frame (length frame - 1) (omega arith) in
    (cka == a && ckb == b, rw (sums, first, second))
