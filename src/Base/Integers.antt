-- ===== src/Base/Integers.antt =====
-- The integers over the native numbers, for signed fields and coordinates.
use Prim.Native.Nat.{ℕ, zero, suc, ◌+◌, ◌-◌, ◌%◌, ◌/◌, ◌^◌}
use mathlib.Core.Bool.{Bool, true, false}
use gnsshat.Base.Tests.{ltb}

-- `negsuc n` is -(n + 1).
pub data ℤ : Type 0 where
  pos : ℕ → ℤ
  negsuc : ℕ → ℤ

abbrev pub ltb_int : ℤ → ℤ → Bool
ltb_int (pos m) (pos n) = ltb m n
ltb_int (pos m) (negsuc n) = false
ltb_int (negsuc m) (pos n) = true
ltb_int (negsuc m) (negsuc n) = ltb n m

-- The conversion to an integer type of `bits` bits, as the word that holds it.
abbrev pub word : ℕ → ℤ → ℕ
word bits (pos n) = n % 2 ^ bits
word bits (negsuc n) = 2 ^ bits - 1 - n % 2 ^ bits

-- A magnitude with its sign; -0 is 0.
abbrev negated : ℕ → ℤ
negated zero = pos 0
negated (suc n) = negsuc n

-- `/` and `%` by a positive number, towards 0 as in the source.
abbrev pub quotient : ℤ → ℕ → ℤ
quotient (pos n) d = pos (n / d)
quotient (negsuc n) d = negated ((n + 1) / d)

abbrev pub remainder : ℤ → ℕ → ℤ
remainder (pos n) d = pos (n % d)
remainder (negsuc n) d = negated ((n + 1) % d)
