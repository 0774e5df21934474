-- ===== src/Messages/KeySizes/Widths.antt =====
-- The table of src/ublox/ubxmsg/UBX_CFG_VALGET.cpp against the size that a key itself states.
use gnsshat.Base.{
  ℕ, ◌/◌, ◌%◌, ◌^◌, ◌≡◌, refl, Bool, true, false, List, [], ◌∷◌, ◌==◌, if◌then◌else◌, ok, IsSafe,
  arith, Bool-cases, inl, inr,
}
use gnsshat.Messages.KeySizes.{key_sizes, find_size, get_key_size}

-- The receiver's keys hold the size of their value in bits 28 to 30: one bit, sent as a byte, or
-- one, two, four or eight bytes.
unfoldable pub stated_size : ℕ → ℕ
stated_size key =
    let code = key / 2 ^ 28 % 8 in
    if code == 1
    then 1
    else if code == 2
    then 1
    else if code == 3
    then 2
    else if code == 4
    then 4
    else if code == 5
    then 8
    else 0

rows_agree : List (ℕ × ℕ) → Bool
rows_agree [] = true
rows_agree ((key, size) ∷ rows) = if stated_size key == size then rows_agree rows else false

find_size-agrees :
    (rows : List (ℕ × ℕ)) (key size : ℕ)
    → rows_agree rows ≡ true
    → find_size key rows ≡ ok size
    → size ≡ stated_size key
unfolding rows_agree find_size
find_size-agrees [] key size agree e = cc
find_size-agrees ((k, n) ∷ rows) key size agree e = ground (arith, find_size-agrees rows key size)

table_agrees : rows_agree key_sizes ≡ true
unfolding rows_agree stated_size
table_agrees = refl

-- Each size in the table is the one that the key states.
get_key_size-stated : (key size : ℕ) → get_key_size key ≡ ok size → size ≡ stated_size key
unfolding get_key_size
get_key_size-stated key size e = find_size-agrees key_sizes key size table_agrees e

find_size-IsSafe : (rows : List (ℕ × ℕ)) (key : ℕ) → IsSafe (find_size key rows)
unfolding find_size
find_size-IsSafe [] key = tt
find_size-IsSafe ((k, n) ∷ rows) key = elim (Bool-cases (k == key)) [
  | inl here ↦ rw here tt
  | inr later ↦ rw later (find_size-IsSafe rows key)
]

pub get_key_size-IsSafe : (key : ℕ) → IsSafe (get_key_size key)
unfolding get_key_size
get_key_size-IsSafe key = find_size-IsSafe key_sizes key
