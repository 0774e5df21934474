-- ===== src/Base/Outcomes.antt =====
-- Outcomes of code that may read outside a span or throw.
use Prim.Native.Nat.{ℕ}
use mathlib.Core.Path.{◌≡◌, refl}
use mathlib.Core.Logic.{◌⊎◌, inl, inr}
use mathlib.Core.List.{List}
use mathlib.Core.Option.{Option, none, some}
use gnsshat.Base.Lists.{get_elem?}

-- `out_of_bounds` is a read or write outside an object, undefined behaviour in the source; each of
-- the others is an exception, named for its message.
pub data Fault : Type 0 where
  out_of_bounds : Fault
  invalid_frame_size : Fault
  unknown_key_size : ℕ → Fault
  insufficient_data : Fault
  no_pairs : Fault
  frame_too_short : Fault
  unknown_port_type : ℕ → Fault
  -- `std::terminate`.
  terminated : Fault
  -- The fuel of a loop ran out; each loop has a theorem that it does not.
  out_of_fuel : Fault

pub data Result {ℓ} (A : Type ℓ) : Type ℓ where
  ok : A → Result A
  err : Fault → Result A

-- An exception leaves all that would come next undone.
infixl 5 ◌>>=◌
abbrev pub ◌>>=◌ {ℓ κ} : {A : Type ℓ} {B : Type κ} → Result A → (A → Result B) → Result B
◌>>=◌ (err fault) next = err fault
◌>>=◌ (ok value) next = next value

-- `frame[i]`.
abbrev pub checked {ℓ} : {A : Type ℓ} → Option A → Result A
checked none = err out_of_bounds
checked (some a) = ok a

abbrev pub read_at : List ℕ → ℕ → Result ℕ
read_at frame i = checked (get_elem? frame i)

pub Result-cases {ℓ} :
    {A : Type ℓ} (r : Result A) → ((a : A) × (r ≡ ok a)) ⊎ ((e : Fault) × (r ≡ err e))
Result-cases (ok a) = inl (a, refl)
Result-cases (err e) = inr (e, refl)

pub ok_pair {ℓ κ} :
    {A : Type ℓ} {B : Type κ} {a a' : A} {b b' : B}
    → a ≡ a'
    → b ≡ b'
    → ◌≡◌ {A = Result (A × B)} (ok (a, b)) (ok (a', b'))
ok_pair p q = cc

-- A value or an exception: no read outside an object, and no loop cut short.
abbrev pub IsThrown : Fault → Type 0
IsThrown out_of_bounds = ⊥
IsThrown out_of_fuel = ⊥
IsThrown terminated = ⊥
IsThrown _ = Unit {0}

abbrev pub IsSafe {ℓ} : {A : Type ℓ} → Result A → Type 0
IsSafe (ok a) = Unit {0}
IsSafe (err e) = IsThrown e

pub >>=-IsSafe {ℓ κ} :
    {A : Type ℓ} {B : Type κ} (m : Result A) (f : A → Result B)
    → IsSafe m
    → ((a : A) → m ≡ ok a → IsSafe (f a))
    → IsSafe (m >>= f)
>>=-IsSafe (ok a) f h k = k a refl
>>=-IsSafe (err e) f h k = h
