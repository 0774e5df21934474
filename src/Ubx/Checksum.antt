-- ===== src/Ubx/Checksum.antt =====
-- `checksum`, `checkFrame` and `addChecksum` of src/ublox/UbxParser.cpp.
use gnsshat.Base.{
  ℕ, zero, suc, ◌+◌, ◌-◌, ◌%◌, ◌&&◌, Bool, List, [], ◌∷◌, ◌++◌, ◌==◌, ltb, if◌then◌else◌, length,
  drop, Bytes, Result, ok, err, out_of_bounds, ◌>>=◌, read_at,
}
pub mod Sums
pub mod Detects
pub mod Total

-- The bytes from `frame[i]` on, with the rounds that are left.
unfoldable pub checksum_loop : ℕ → Bytes → ℕ → ℕ → Result (ℕ × ℕ)
checksum_loop zero rest cka ckb = ok (cka, ckb)
checksum_loop (suc rounds) [] cka ckb = err out_of_bounds
checksum_loop (suc rounds) (b ∷ rest) cka ckb =
    let cka' = (cka + b) % 256 in checksum_loop rounds rest cka' ((ckb + cka') % 256)

-- Where `offset` exceeds the size, the unsigned bound wraps and the loop reads past the end.
unfoldable pub checksum : Bytes → ℕ → Result (ℕ × ℕ)
checksum frame offset =
    if ltb (length frame) offset
    then err out_of_bounds
    else checksum_loop (length frame - offset - 2) (drop 2 frame) 0 0

unfoldable pub check_frame : Bytes → Result Bool
check_frame frame = do
  (cka, ckb) ← checksum frame 2
  a ← read_at frame (length frame - 2)
  b ← read_at frame (length frame - 1)
  ok (cka == a && ckb == b)

unfoldable pub add_checksum : Bytes → Result Bytes
add_checksum frame = do
  (cka, ckb) ← checksum frame 0
  let framed = frame ++ cka ∷ ckb ∷ []
  good ← check_frame framed
  ok (if good then framed else 0xFF ∷ [])
