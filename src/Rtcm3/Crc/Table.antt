-- ===== src/Rtcm3/Crc/Table.antt =====
-- The table of src/ublox/Rtcm3Parser.cpp against the polynomial of CRC-24Q, and the bounds of the
-- loop.
use gnsshat.Base.{
  ℕ, zero, suc, ◌+◌, ◌*◌, ◌/◌, ◌%◌, ◌^◌, ◌<◌, ◌≤◌, ◌≡◌, refl, Bool, true, ◌&&◌, List, [], ◌∷◌, ◌==◌,
  ==_iff, and_true, ltb, if◌then◌else◌, length, arith, Bytes, ok, read_at, read_at_ok, get_elem?,
  checked, ap, some,
}
use mathlib.Core.Path.{subst}
use native.Mathlib.Nat.{pow-suc}
use gnsshat.Rtcm3.Crc.{xor, crc_table, crc_loop}

-- A bit shifted out is taken back in by the polynomial 0x1864CFB.
pub divide : ℕ → ℕ → ℕ
divide zero crc = crc
divide (suc rounds) crc =
    let shifted = if ltb (crc * 2) (2 ^ 24) then crc * 2 else xor 25 (crc * 2) 0x1864CFB in
    divide rounds shifted

rows_match : ℕ → List ℕ → Bool
rows_match i [] = true
rows_match i (row ∷ rows) = (row == divide 8 (i * 2 ^ 16)) && rows_match (i + 1) rows

rows_match_row :
    (start : ℕ) (rows : List ℕ) (i : ℕ)
    → rows_match start rows ≡ true
    → i < length rows
    → get_elem? rows i ≡ some (divide 8 ((start + i) * 2 ^ 16))
unfolding rows_match
rows_match_row start [] i e h = absurd (omega arith)
rows_match_row start (row ∷ rows) zero e h =
    let (here, later) =
      and_true (row == divide 8 (start * 2 ^ 16)) (rows_match (start + 1) rows) e in
    let k : start ≡ start + 0 = omega arith in
    ap some
      (subst (λ n. row ≡ divide 8 (n * 2 ^ 16)) k ((==_iff row (divide 8 (start * 2 ^ 16))).0 here))
rows_match_row start (row ∷ rows) (suc i) e h =
    let (here, later) =
      and_true (row == divide 8 (start * 2 ^ 16)) (rows_match (start + 1) rows) e in
    let k : start + 1 + i ≡ start + suc i = omega arith in
    subst (λ n. get_elem? rows i ≡ some (divide 8 (n * 2 ^ 16))) k
      (rows_match_row (start + 1) rows i later (omega arith))

table_matches : rows_match 0 crc_table ≡ true
unfolding rows_match divide xor
table_matches = refl

-- Each entry of the table is what eight steps of the division by the polynomial make of its index.
pub crc_table_lem : (i : ℕ) → i < 256 → read_at crc_table i ≡ ok (divide 8 (i * 2 ^ 16))
crc_table_lem i h =
    let k : 0 + i ≡ i = omega arith in
    subst (λ n. read_at crc_table i ≡ ok (divide 8 (n * 2 ^ 16))) k
      (ap checked (rows_match_row 0 crc_table i table_matches h))

xor_lt : (bits a b : ℕ) → xor bits a b < 2 ^ bits
unfolding xor
xor_lt zero a b = omega arith
xor_lt (suc bits) a b = omega (arith, xor_lt bits (a / 2) (b / 2), pow-suc 2 bits)

-- The table is indexed inside its bounds, and the loop stays inside the data.
pub crc_loop_ok :
    (rounds : ℕ) (rest : Bytes) (crc : ℕ)
    → rounds ≤ length rest
    → (result : ℕ) × (crc_loop rounds rest crc ≡ ok result)
unfolding crc_loop
crc_loop_ok zero rest crc h = (crc, refl)
crc_loop_ok (suc rounds) [] crc h = absurd (omega arith)
crc_loop_ok (suc rounds) (b ∷ rest) crc h =
    let (entry, e) = read_at_ok crc_table (xor 8 (crc / 2 ^ 16) b) (xor_lt 8 (crc / 2 ^ 16) b) in
    let (result, f) = crc_loop_ok rounds rest (xor 24 (crc * 256 % 2 ^ 24) entry) (omega arith) in
    (result, rw (e) f)
