-- ===== src/Nmea/Checked.antt =====
-- How a reader of NMEA checks a sentence of src/ublox/NmeaForwarder.cpp.
use gnsshat.Base.{
  ℕ, zero, suc, ◌+◌, ◌-◌, ◌*◌, ◌/◌, ◌%◌, ◌^◌, ◌<◌, ◌≡◌, ◌≢◌, refl, ◌∙◌, inl, inr, Bool, true, false,
  ◌&&◌, Bool-cases, arith, [], ◌∷◌, ◌++◌, All, ◌==◌, ==_iff, ltb, if◌then◌else◌,
}
use native.Mathlib.Nat.{pow-suc}
use gnsshat.Rtcm3.Crc.{xor}
use gnsshat.Nmea.Text.{Text, xor_all, hex_digit, calculate_nmea_checksum, framed_sentence}

abbrev pub hex_value : ℕ → ℕ
hex_value c = if ltb c 58 then c - 48 else c - 55

-- Behind the star: the two digits of the checksum and the end of the line.
abbrev pub ends_with : ℕ → Text → Bool
ends_with checksum (high ∷ low ∷ cr ∷ lf ∷ []) =
    16 * hex_value high + hex_value low == checksum && (cr == 13 && lf == 10)
ends_with checksum _ = false

abbrev pub check_from : ℕ → Text → Bool
check_from checksum [] = false
check_from checksum (c ∷ rest) =
    let later = check_from (xor 8 checksum c) rest in
    if c == 42 then ends_with checksum rest else later

-- A dollar, the characters to the star, and their checksum.
abbrev pub check_sentence : Text → Bool
check_sentence [] = false
check_sentence (c ∷ rest) = c == 36 && check_from 0 rest

xor_bound : (bits a b : ℕ) → xor bits a b < 2 ^ bits
unfolding xor
xor_bound zero a b = omega arith
xor_bound (suc bits) a b = omega (arith, xor_bound bits (a / 2) (b / 2), pow-suc 2 bits)

hex_back : (d : ℕ) → d < 16 → hex_value (hex_digit d) ≡ d
hex_back d h = ground arith

digits_back :
    (checksum : ℕ)
    → checksum < 256
    → ends_with checksum (hex_digit (checksum / 16) ∷ hex_digit (checksum % 16) ∷ 13 ∷ 10 ∷ [])
      ≡ true
digits_back checksum h =
    let high = hex_back (checksum / 16) (omega arith) in
    let low = hex_back (checksum % 16) (omega arith) in
    let same = (==_iff (16 * (checksum / 16) + checksum % 16) checksum).1 (omega arith) in
    rw (high, low) (rw (same) refl)

checked_from :
    (checksum : ℕ) (body : Text) (tail : Text)
    → All (λ c. c ≢ 42) body
    → check_from checksum (body ++ 42 ∷ tail) ≡ ends_with (xor_all checksum body) tail
unfolding xor_all
checked_from checksum [] tail h = refl
checked_from checksum (c ∷ body) tail (h, k) = elim (Bool-cases (c == 42)) [
  | inl star ↦ absurd (h ((==_iff c 42).0 star))
  | inr other ↦ rw (other) (checked_from (xor 8 checksum c) body tail k)
]

xor_all_bound : (checksum : ℕ) (body : Text) → checksum < 256 → xor_all checksum body < 256
unfolding xor_all
xor_all_bound checksum [] h = h
xor_all_bound checksum (c ∷ body) h =
    xor_all_bound (xor 8 checksum c) body (omega (arith, xor_bound 8 checksum c))

-- A text without a star, put out as a sentence, passes the check of a reader: it starts with the
-- dollar, the two digits behind the star are the exclusive or of all characters between the two,
-- and the line ends behind them.
pub framed_sentence_checked :
    (body : Text) → All (λ c. c ≢ 42) body → check_sentence (framed_sentence body) ≡ true
unfolding framed_sentence calculate_nmea_checksum
framed_sentence_checked body h =
    checked_from 0 body (calculate_nmea_checksum body ++ 13 ∷ 10 ∷ []) h
    ∙ digits_back (xor_all 0 body) (xor_all_bound 0 body (omega arith))
