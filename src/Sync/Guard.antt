-- ===== src/Sync/Guard.antt =====
-- JPGuard of src/common/JPGuard.cpp, and threads that release it only when they have taken it, as
-- Rtcm3Store does.
use gnsshat.Base.{
  ℕ, ◌≡◌, ◌≢◌, ◌⊎◌, refl, sym, ap, ◌∙◌, Bool, true, false, Option, none, some, ◌==◌, ==_iff,
  ==-refl, inl, inr, Bool-cases, if◌then◌else◌,
}

abbrev pub locked_at_first : Bool
locked_at_first = false

-- `takeResource`: `none` where the thread goes on waiting.
unfoldable pub take_resource : Bool → Option (Bool × Bool)
take_resource locked = if locked then none else some (true, true)

-- `takeResource` with a timeout, which has expired or not when the predicate is tested: the result
-- and the flag.
unfoldable pub take_resource_timeout : Bool → Bool → Option (Bool × Bool)
take_resource_timeout expired locked =
    if locked then (if expired then some (false, locked) else none) else some (true, true)

unfoldable pub release_resource : Bool → Bool × Bool
release_resource locked = (true, false)

pub data Phase : Type 0 where
  away : Phase
  waiting : Phase
  inside : Phase

pub record System : Type 0 where
  pub locked : Bool
  pub phase : ℕ → Phase

abbrev pub moved : ℕ → Phase → (ℕ → Phase) → ℕ → Phase
moved i p phase j = if i == j then p else phase j

-- One operation of one thread.
pub data Step : System → System → Type 0 where
  arrive :
      {s : System} (i : ℕ)
      → s.phase i ≡ away
      → Step s (record { locked = s.locked; phase = moved i waiting s.phase })
  enter :
      {s : System} (i : ℕ) (locked : Bool)
      → s.phase i ≡ waiting
      → take_resource s.locked ≡ some (true, locked)
      → Step s (record { locked = locked; phase = moved i inside s.phase })
  enter_in_time :
      {s : System} (i : ℕ) (expired locked : Bool)
      → s.phase i ≡ waiting
      → take_resource_timeout expired s.locked ≡ some (true, locked)
      → Step s (record { locked = locked; phase = moved i inside s.phase })
  give_up :
      {s : System} (i : ℕ) (expired locked : Bool)
      → s.phase i ≡ waiting
      → take_resource_timeout expired s.locked ≡ some (false, locked)
      → Step s (record { locked = locked; phase = moved i away s.phase })
  leave :
      {s : System} (i : ℕ) (locked : Bool)
      → s.phase i ≡ inside
      → release_resource s.locked ≡ (true, locked)
      → Step s (record { locked = locked; phase = moved i away s.phase })

abbrev pub start : System
start = record { locked = locked_at_first; phase = λ i. away }

pub data Reachable : System → Type 0 where
  at_start : Reachable start
  onward : {s t : System} → Reachable s → Step s t → Reachable t

-- At most one thread is inside, and the flag is raised exactly when one is.
pub record IsExclusive (s : System) : Type 0 where
  pub alone : (i j : ℕ) → s.phase i ≡ inside → s.phase j ≡ inside → i ≡ j
  pub raised : (i : ℕ) → s.phase i ≡ inside → s.locked ≡ true
  pub held : s.locked ≡ true → (i : ℕ) × (s.phase i ≡ inside)

moved_cases :
    (i j : ℕ) (p q : Phase) (phase : ℕ → Phase)
    → moved i p phase j ≡ q
    → ((i ≡ j) × (p ≡ q)) ⊎ ((i ≢ j) × (phase j ≡ q))
moved_cases i j p q phase e = elim (Bool-cases (i == j)) [
  | inl same ↦ inl ((==_iff i j).0 same, rw (same) at e)
  | inr other ↦ inr ((λ equal. let same = (==_iff i j).1 equal in absurd cc), rw (other) at e)
]

moved_here : (i : ℕ) (p : Phase) (phase : ℕ → Phase) → moved i p phase i ≡ p
moved_here i p phase = rw (==-refl i) refl

moved_there : (i j : ℕ) (p : Phase) (phase : ℕ → Phase) → i ≢ j → moved i p phase j ≡ phase j
moved_there i j p phase apart = elim (Bool-cases (i == j)) [
  | inl same ↦ absurd (apart ((==_iff i j).0 same))
  | inr other ↦ rw (other) refl
]

-- A thread that was not inside goes to a place that is not inside, the flag unchanged.
outside :
    (s : System) (i : ℕ) (p : Phase) (locked : Bool)
    → IsExclusive s
    → s.phase i ≢ inside
    → p ≢ inside
    → s.locked ≡ locked
    → IsExclusive (record { locked = locked; phase = moved i p s.phase })
outside s i p locked inv was will same = record {
  alone = λ a b e f. inv.alone a b (before a e) (before b f);
  raised = λ a e. sym same ∙ inv.raised a (before a e);
  held = λ e.
      let (a, f) = inv.held (same ∙ e) in
      (a, moved_there i a p s.phase (λ here. was (ap s.phase here ∙ f)) ∙ f);
}
  where
    before : (a : ℕ) → moved i p s.phase a ≡ inside → s.phase a ≡ inside
    before a e = elim (moved_cases i a p inside s.phase e) [
      | inl (_, bad) ↦ absurd (will bad)
      | inr (_, f) ↦ f
    ]

-- A thread goes inside where the flag was down.
entered :
    (s : System) (i : ℕ)
    → IsExclusive s
    → s.locked ≡ false
    → IsExclusive (record { locked = true; phase = moved i inside s.phase })
entered s i inv down = record {
  alone = λ a b e f. sym (only a e) ∙ only b f;
  raised = λ a e. refl;
  held = λ e. (i, moved_here i inside s.phase);
}
  where
    only : (a : ℕ) → moved i inside s.phase a ≡ inside → i ≡ a
    only a e = elim (moved_cases i a inside inside s.phase e) [
      | inl (here, _) ↦ here
      | inr (_, f) ↦ let up = inv.raised a f in absurd cc
    ]

-- The thread that is inside goes, and the flag with it.
left :
    (s : System) (i : ℕ)
    → IsExclusive s
    → s.phase i ≡ inside
    → IsExclusive (record { locked = false; phase = moved i away s.phase })
left s i inv was = record {
  alone = λ a b e f. absurd (none_left a e);
  raised = λ a e. absurd (none_left a e);
  held = λ e. absurd cc;
}
  where
    none_left : (a : ℕ) → moved i away s.phase a ≢ inside
    none_left a e = elim (moved_cases i a away inside s.phase e) [
      | inl (_, bad) ↦ absurd cc
      | inr (other, f) ↦ other (inv.alone i a was f)
    ]

taken :
    (locked next : Bool)
    → take_resource locked ≡ some (true, next)
    → (locked ≡ false) × (next ≡ true)
unfolding take_resource
taken true next e = absurd cc
taken false next e = (refl, cc)

taken_timeout :
    (expired locked next : Bool)
    → take_resource_timeout expired locked ≡ some (true, next)
    → (locked ≡ false) × (next ≡ true)
unfolding take_resource_timeout
taken_timeout true true next e = absurd cc
taken_timeout false true next e = absurd cc
taken_timeout expired false next e = (refl, cc)

given_up :
    (expired locked next : Bool)
    → take_resource_timeout expired locked ≡ some (false, next)
    → locked ≡ next
unfolding take_resource_timeout
given_up true true next e = cc
given_up false true next e = absurd cc
given_up expired false next e = absurd cc

released : (locked next : Bool) → release_resource locked ≡ (true, next) → next ≡ false
unfolding release_resource
released locked next e = cc

Step-IsExclusive : {s t : System} → Step s t → IsExclusive s → IsExclusive t
Step-IsExclusive {s} (arrive i was) inv =
    outside s i waiting s.locked inv (λ e. absurd cc) (λ e. absurd cc) refl
Step-IsExclusive {s} (enter i next was e) inv =
    let (down, up) = taken s.locked next e in rw (up) (entered s i inv down)
Step-IsExclusive {s} (enter_in_time i expired next was e) inv =
    let (down, up) = taken_timeout expired s.locked next e in rw (up) (entered s i inv down)
Step-IsExclusive {s} (give_up i expired next was e) inv =
    outside s i away next inv (λ f. absurd cc) (λ f. absurd cc) (given_up expired s.locked next e)
Step-IsExclusive {s} (leave i next was e) inv = rw (released s.locked next e) (left s i inv was)

-- Among threads that release the guard only when they have taken it, whatever the order of their
-- operations and the timeouts that expire, never are two inside at once, and the flag is raised
-- exactly while one is.
pub Reachable-IsExclusive : {s : System} → Reachable s → IsExclusive s
Reachable-IsExclusive at_start = record {
  alone = λ a b e f. absurd cc;
  raised = λ a e. absurd cc;
  held = λ e. absurd cc;
}
Reachable-IsExclusive (onward r step) = Step-IsExclusive step (Reachable-IsExclusive r)
