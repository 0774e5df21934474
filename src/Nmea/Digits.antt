-- ===== src/Nmea/Digits.antt =====
-- The decimal numbers in the sentences of src/ublox/NmeaForwarder.cpp, read back.
use gnsshat.Base.{
  ℕ, zero, suc, ◌+◌, ◌-◌, ◌*◌, ◌/◌, ◌%◌, ◌<◌, ◌≡◌, refl, ◌∙◌, ap, inl, inr, Bool-cases, ltb, ltb→le,
  [], ◌∷◌, ◌++◌, arith,
}
use gnsshat.Nmea.Text.{Text, digits, decimal}

-- The value of digits behind those of `higher`.
abbrev value : ℕ → Text → ℕ
value higher [] = higher
value higher (c ∷ rest) = value (higher * 10 + (c - 48)) rest

value-append : (higher : ℕ) (xs ys : Text) → value higher (xs ++ ys) ≡ value (value higher xs) ys
value-append higher [] ys = refl
value-append higher (c ∷ xs) ys = value-append (higher * 10 + (c - 48)) xs ys

digits_value : (fuel n : ℕ) → n < fuel → value 0 (digits fuel n) ≡ n
unfolding digits
digits_value zero n h = absurd (omega (arith, h))
digits_value (suc fuel) n h = elim (Bool-cases (ltb n 10)) [
  | inl small ↦ rw small (omega arith)
  | inr large ↦ rw large (
      value-append 0 (digits fuel (n / 10)) ((48 + n % 10) ∷ [])
      ∙ ap (λ v. v * 10 + (48 + n % 10 - 48))
          (digits_value fuel (n / 10) (omega (arith, ltb→le n 10 large, h)))
      ∙ omega arith)
]

-- A number of any size is printed in digits that give it back.
decimal_value : (n : ℕ) → value 0 (decimal n) ≡ n
unfolding decimal
decimal_value n = digits_value (suc n) n (omega arith)
