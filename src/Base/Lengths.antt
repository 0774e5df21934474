-- ===== src/Base/Lengths.antt =====
-- How long a frame has to be for a chain of reads to succeed.
use Prim.Native.Nat.{ℕ, zero, suc, ◌+◌, ◌≤◌, ◌<◌}
use mathlib.Core.Path.{◌≡◌, refl, ap}
use mathlib.Core.Logic.{◌↔◌, ◌⊎◌, inl, inr}
use native.Mathlib.Omega.{arith}
use gnsshat.Base.Lists.{length, get_elem?-none}
use gnsshat.Base.Tests.{ltb, if◌then◌else◌, Bool-cases, ltb→lt, ltb→le}
use gnsshat.Base.Outcomes.{Result, ok, err, Fault, ◌>>=◌, checked, read_at}
use gnsshat.Base.Words.{Bytes, read_le, read_at_ok}

-- A value and no fault.
abbrev pub HasValue {ℓ} : {A : Type ℓ} → Result A → Type 0
HasValue (ok a) = Unit {0}
HasValue (err e) = ⊥

-- There is a value exactly when the length is at least `n`.
abbrev pub Needs {ℓ} : {A : Type ℓ} → ℕ → ℕ → Result A → Type 0
Needs n size r = HasValue r ↔ (n ≤ size)

pub HasValue-ok {ℓ} : {A : Type ℓ} (r : Result A) → HasValue r → (a : A) × (r ≡ ok a)
HasValue-ok (ok a) h = (a, refl)
HasValue-ok (err e) h = absurd h

pub HasValue-bind {ℓ κ} :
    {A : Type ℓ} {B : Type κ} (m : Result A) (f : A → Result B)
    → HasValue (m >>= f)
    → (a : A) × (m ≡ ok a) × HasValue (f a)
HasValue-bind (ok a) f h = (a, refl, h)
HasValue-bind (err e) f h = absurd h

le_or_lt : (a b : ℕ) → (a ≤ b) ⊎ (b < a)
le_or_lt a b = elim (Bool-cases (ltb b a)) [
  | inl less ↦ inr (ltb→lt b a less)
  | inr more ↦ inl (ltb→le b a more)
]

has_none {ℓ} : {A : Type ℓ} (r : Result A) {e : Fault} → r ≡ err e → ¬ HasValue r
has_none (ok a) e h = absurd cc
has_none (err _) e h = h

-- To show that a value means a length, show that a shorter frame has none.
Needs-split {ℓ} :
    {A : Type ℓ} (r : Result A) (n size : ℕ)
    → (n ≤ size → HasValue r)
    → (size < n → ¬ HasValue r)
    → Needs n size r
Needs-split r n size f g =
    ((λ h. elim (le_or_lt n size) [ inl fits ↦ fits | inr short ↦ absurd (g short h) ]), f)

-- A test for the shorter frames before the reads.
pub Needs-guard {ℓ} :
    {A : Type ℓ} (n : ℕ) {size : ℕ} (fault : Fault) (r : Result A)
    → (n ≤ size → Needs n size r)
    → Needs n size (if ltb size n then err fault else r)
Needs-guard n {size} fault r h = elim (Bool-cases (ltb size n)) [
  | inl short ↦
      rw short ((λ v. absurd v), (λ fits. absurd (omega (arith, fits, ltb→lt size n short))))
  | inr fits ↦ rw fits (h (ltb→le size n fits))
]

-- A value that needs no more than what is known to be there.
pub there : {n size : ℕ} → n ≤ size → Unit {0} ↔ (n ≤ size)
there h = ((λ _. h), (λ _. tt))

pub Needs-read_at : (frame : Bytes) (i : ℕ) → Needs (i + 1) (length frame) (read_at frame i)
Needs-read_at frame i =
    Needs-split (read_at frame i) (i + 1) (length frame)
      (λ h. rw ((read_at_ok frame i (omega arith)).1) tt)
      (λ h. has_none (read_at frame i) (ap checked (get_elem?-none frame i (omega arith))))

-- The first read asks for no more than all of them do, and the later ones know that it is there.
pub Needs-bind {ℓ κ} :
    {A : Type ℓ} {B : Type κ} (m : Result A) (f : A → Result B) {k n size : ℕ}
    → Needs k size m
    → k ≤ n
    → ((a : A) → k ≤ size → Needs n size (f a))
    → Needs n size (m >>= f)
Needs-bind (ok a) f h less rest = rest a (h.0 tt)
Needs-bind (err e) f h less rest = ((λ v. absurd v), (λ fits. absurd (h.1 (omega arith))))

pub Needs-read_le :
    (size : ℕ) (frame : Bytes) (offset : ℕ)
    → Needs (offset + suc size) (length frame) (read_le (suc size) frame offset)
unfolding read_le
Needs-read_le zero frame offset =
    Needs-bind (read_at frame offset) _ (Needs-read_at frame offset) (omega arith)
      (λ low fits. there fits)
Needs-read_le (suc size) frame offset =
    Needs-bind (read_at frame offset) _ (Needs-read_at frame offset) (omega arith) (λ low _.
      Needs-bind (read_le (suc size) frame (offset + 1)) _ (Needs-read_le size frame (offset + 1))
        (omega arith) (λ high fits. there (omega arith)))

-- A chain that goes on with a byte, and with a word.
module _ {κ} {B : Type κ} (frame : Bytes) (offset : ℕ) {n : ℕ} (f : ℕ → Result B) where
  pub Needs-byte :
      offset < n
      → ((b : ℕ) → offset < length frame → Needs n (length frame) (f b))
      → Needs n (length frame) (read_at frame offset >>= f)
  Needs-byte less rest =
      Needs-bind (read_at frame offset) f (Needs-read_at frame offset) (omega arith)
        (λ b fits. rest b (omega arith))

  pub Needs-word :
      (size : ℕ)
      → offset + suc size ≤ n
      → ((v : ℕ) → offset + suc size ≤ length frame → Needs n (length frame) (f v))
      → Needs n (length frame) (read_le (suc size) frame offset >>= f)
  Needs-word size less rest =
      Needs-bind (read_le (suc size) frame offset) f (Needs-read_le size frame offset) less rest
