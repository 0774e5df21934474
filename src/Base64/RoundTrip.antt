-- ===== src/Base64/RoundTrip.antt =====
-- Decoding what was encoded, for src/common/Utils.cpp.
use gnsshat.Base.{
  ℕ, zero, suc, ◌+◌, ◌*◌, ◌/◌, ◌%◌, ◌^◌, ◌<◌, ◌≡◌, refl, ap, ◌∙◌, Bool, true, false, ◌&&◌, and_true,
  List, [], ◌∷◌, ◌==◌, ==_iff, length, arith, Bytes, IsByte, AreBytes, Result, ok, err, ◌>>=◌,
  read_at, checked, get_elem?, some, ℤ, pos, negsuc,
}
use gnsshat.Base64.{
  encode_table, decode_entry, decode_digit, decode_loop, base64_encode, base64_decode, padding,
}

-- The character of a digit, which is decoded to that digit.
IsDigit : ℕ → ℕ → Type 0
IsDigit digit c = (read_at encode_table digit ≡ ok c) × (decode_entry c ≡ ok (pos digit))

is_entry : ℕ → Result ℤ → Bool
is_entry i (ok (pos n)) = n == i
is_entry i _ = false

rows_invert : ℕ → List ℕ → Bool
rows_invert i [] = true
rows_invert i (row ∷ rows) = is_entry i (decode_entry row) && rows_invert (i + 1) rows

is_entry_lem : (i : ℕ) (r : Result ℤ) → is_entry i r ≡ true → r ≡ ok (pos i)
unfolding is_entry
is_entry_lem i (ok (pos n)) e = ap (λ k. ok (pos k)) ((==_iff n i).0 e)
is_entry_lem i (ok (negsuc n)) e = absurd cc
is_entry_lem i (err f) e = absurd cc

rows_invert_row :
    (start : ℕ) (rows : List ℕ) (i : ℕ)
    → rows_invert start rows ≡ true
    → i < length rows
    → (c : ℕ) × (get_elem? rows i ≡ some c) × (decode_entry c ≡ ok (pos (start + i)))
unfolding rows_invert
rows_invert_row start [] i e h = absurd (omega arith)
rows_invert_row start (row ∷ rows) zero e h =
    let (here, later) =
      and_true (is_entry start (decode_entry row)) (rows_invert (start + 1) rows) e in
    let k : start ≡ start + 0 = omega arith in
    (row, refl, is_entry_lem start (decode_entry row) here ∙ ap (λ n. ok (pos n)) k)
rows_invert_row start (row ∷ rows) (suc i) e h =
    let (here, later) =
      and_true (is_entry start (decode_entry row)) (rows_invert (start + 1) rows) e in
    let (c, f, g) = rows_invert_row (start + 1) rows i later (omega arith) in
    let k : start + 1 + i ≡ start + suc i = omega arith in (c, f, g ∙ ap (λ n. ok (pos n)) k)

tables_invert : rows_invert 0 encode_table ≡ true
unfolding rows_invert is_entry
tables_invert = refl

IsDigit-char : (digit : ℕ) → digit < 64 → (c : ℕ) × IsDigit digit c
unfolding IsDigit
IsDigit-char digit h =
    let (c, e, f) = rows_invert_row 0 encode_table digit tables_invert h in
    let k : 0 + digit ≡ digit = omega arith in (c, (ap checked e, f ∙ ap (λ n. ok (pos n)) k))

decode_char :
    (digit c : ℕ) (chars : Bytes) (v bits : ℕ)
    → IsDigit digit c
    → decode_loop (c ∷ chars) v bits ≡ decode_digit (pos digit) (decode_loop chars) v bits
unfolding decode_loop IsDigit
decode_char digit c chars v bits (_, e) = rw e refl

digit_entry : (digit c : ℕ) → IsDigit digit c → read_at encode_table digit ≡ ok c
unfolding IsDigit
digit_entry digit c (e, _) = e

-- The accumulator after a digit.
shift : ℕ → ℕ → ℕ
shift v digit = (v * 64 + digit) % 2 ^ 32

module _ (digit c : ℕ) (chars : Bytes) (v : ℕ) (h : IsDigit digit c) where
  first : decode_loop (c ∷ chars) v 0 ≡ decode_loop chars (shift v digit) 6
  unfolding shift
  first = decode_char digit c chars v 0 h

  second :
      decode_loop (c ∷ chars) v 6
      ≡ (decode_loop chars (shift v digit) 4 >>= λ later. ok (shift v digit / 2 ^ 4 % 256 ∷ later))
  unfolding shift
  second = decode_char digit c chars v 6 h

  third :
      decode_loop (c ∷ chars) v 4
      ≡ (decode_loop chars (shift v digit) 2 >>= λ later. ok (shift v digit / 2 ^ 2 % 256 ∷ later))
  unfolding shift
  third = decode_char digit c chars v 4 h

  fourth :
      decode_loop (c ∷ chars) v 2
      ≡ (decode_loop chars (shift v digit) 0 >>= λ later. ok (shift v digit / 2 ^ 0 % 256 ∷ later))
  unfolding shift
  fourth = decode_char digit c chars v 2 h

stops : (chars : Bytes) (v bits : ℕ) → decode_loop (padding ∷ chars) v bits ≡ ok []
unfolding decode_loop
stops chars v bits = refl

-- The bytes that the accumulator gives back.
first_byte :
    (v word x : ℕ)
    → word / 65536 ≡ x
    → x < 256
    → shift (shift v (word / 2 ^ 18 % 64)) (word / 2 ^ 12 % 64) / 2 ^ 4 % 256 ≡ x
unfolding shift
first_byte v word x e h = omega arith

second_byte :
    (v word y : ℕ)
    → word / 256 % 256 ≡ y
    → shift (shift v (word / 2 ^ 12 % 64)) (word / 2 ^ 6 % 64) / 2 ^ 2 % 256 ≡ y
unfolding shift
second_byte v word y e = omega arith

third_byte :
    (v word z : ℕ)
    → word % 256 ≡ z
    → shift (shift v (word / 2 ^ 6 % 64)) (word % 64) / 2 ^ 0 % 256 ≡ z
unfolding shift
third_byte v word z e = omega arith

Decodes : Bytes → Type 0
Decodes bytes =
    (chars : Bytes) × (base64_encode bytes ≡ ok chars)
    × ((v : ℕ) → decode_loop chars v 0 ≡ ok bytes)

one_left : (x : ℕ) → IsByte x → Decodes (x ∷ [])
unfolding Decodes base64_encode
one_left x h =
    let (a, p) = IsDigit-char (x * 65536 / 2 ^ 18 % 64) (omega arith) in
    let (b, q) = IsDigit-char (x * 65536 / 2 ^ 12 % 64) (omega arith) in
    (
      a ∷ b ∷ padding ∷ padding ∷ [],
      rw (digit_entry _ a p, digit_entry _ b q) refl,
      λ v.
          rw
            (
              first _ a (b ∷ padding ∷ padding ∷ []) v p,
              second _ b (padding ∷ padding ∷ []) (shift v (x * 65536 / 2 ^ 18 % 64)) q,
              stops (padding ∷ []) _ 4,
              first_byte v (x * 65536) x (omega arith) h,
            )
            refl,
    )

two_left : (x y : ℕ) → IsByte x → IsByte y → Decodes (x ∷ y ∷ [])
unfolding Decodes base64_encode
two_left x y h k =
    let word = x * 65536 + y * 256 in
    let (a, p) = IsDigit-char (word / 2 ^ 18 % 64) (omega arith) in
    let (b, q) = IsDigit-char (word / 2 ^ 12 % 64) (omega arith) in
    let (c, r) = IsDigit-char (word / 2 ^ 6 % 64) (omega arith) in
    (
      a ∷ b ∷ c ∷ padding ∷ [],
      rw (digit_entry _ a p, digit_entry _ b q, digit_entry _ c r) refl,
      λ v.
          rw
            (
              first _ a (b ∷ c ∷ padding ∷ []) v p,
              second _ b (c ∷ padding ∷ []) (shift v (word / 2 ^ 18 % 64)) q,
              third _ c (padding ∷ []) (shift (shift v (word / 2 ^ 18 % 64)) (word / 2 ^ 12 % 64))
                  r,
              stops [] _ 2,
              first_byte v word x (omega arith) h,
              second_byte (shift v (word / 2 ^ 18 % 64)) word y (omega arith),
            )
            refl,
    )

three_first :
    (x y z : ℕ) (rest : Bytes)
    → IsByte x
    → IsByte y
    → IsByte z
    → Decodes rest
    → Decodes (x ∷ y ∷ z ∷ rest)
unfolding Decodes base64_encode
three_first x y z rest h k l (chars, e, later) =
    let word = x * 65536 + y * 256 + z in
    let (a, p) = IsDigit-char (word / 2 ^ 18 % 64) (omega arith) in
    let (b, q) = IsDigit-char (word / 2 ^ 12 % 64) (omega arith) in
    let (c, r) = IsDigit-char (word / 2 ^ 6 % 64) (omega arith) in
    let (d, s) = IsDigit-char (word % 64) (omega arith) in
    (
      a ∷ b ∷ c ∷ d ∷ chars,
      rw (digit_entry _ a p, digit_entry _ b q, digit_entry _ c r, digit_entry _ d s, e) refl,
      λ v.
          let v1 = shift v (word / 2 ^ 18 % 64) in
          let v2 = shift v1 (word / 2 ^ 12 % 64) in
          let v3 = shift v2 (word / 2 ^ 6 % 64) in
          rw
            (
              first _ a (b ∷ c ∷ d ∷ chars) v p,
              second _ b (c ∷ d ∷ chars) v1 q,
              third _ c (d ∷ chars) v2 r,
              fourth _ d chars v3 s,
              later (shift v3 (word % 64)),
              first_byte v word x (omega arith) h,
              second_byte v1 word y (omega arith),
              third_byte v2 word z (omega arith),
            )
            refl,
    )

all_decode : (bytes : Bytes) → AreBytes bytes → Decodes bytes
unfolding Decodes base64_encode decode_loop
all_decode [] h = ([], refl, λ v. refl)
all_decode (x ∷ []) (h, _) = one_left x h
all_decode (x ∷ y ∷ []) (h, (k, _)) = two_left x y h k
all_decode (x ∷ y ∷ z ∷ rest) (h, (k, (l, hs))) = three_first x y z rest h k l (all_decode rest hs)

-- Any bytes are encoded, and decoding gives them back.
pub base64_decode-encode :
    (bytes : Bytes)
    → AreBytes bytes
    → (chars : Bytes) × (base64_encode bytes ≡ ok chars) × (base64_decode chars ≡ ok bytes)
unfolding base64_decode Decodes
base64_decode-encode bytes h = let (chars, e, decoded) = all_decode bytes h in (chars, e, decoded 0)
