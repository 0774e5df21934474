-- ===== src/Sync/Notifier.antt =====
-- Notifier of src/common/Notifier.hpp: a flag that one waiting thread consumes and a generation
-- that side subscribers compare their cursor with.
use gnsshat.Base.{
  ℕ, zero, suc, ◌+◌, ◌%◌, ◌^◌, ◌≡◌, ◌↔◌, refl, sym, ap, ◌∙◌, Bool, true, false, List, [], ◌∷◌,
  Option, none, some, ◌==◌, if◌then◌else◌, arith, Bool-cases, inl, inr, ◌<◌, ==_iff,
}

-- `generation` is a `uint64_t`.
pub record Notifier : Type 0 where
  pub ready : Bool
  pub generation : ℕ

abbrev pub silent : Notifier
silent = record { ready = false; generation = 0 }

unfoldable pub notify : Notifier → Notifier
notify n = record { ready = true; generation = (n.generation + 1) % 2 ^ 64 }

-- `wait`: nothing while the predicate does not hold.
unfoldable pub wait : Notifier → Option Notifier
wait n = if n.ready then some (record n { ready = false }) else none

-- `wait` for a stop that has been requested or not: the result, the notifier.
unfoldable pub wait_or_stop : Notifier → Bool → Option (Bool × Notifier)
wait_or_stop n stop =
    if n.ready
    then some (true, record n { ready = false })
    else if stop
    then some (false, n)
    else none

-- `waitForNewGeneration`, for a stop that has been requested or not: the result, the cursor.
unfoldable pub wait_for_new_generation : Notifier → ℕ → Bool → Option (Bool × ℕ)
wait_for_new_generation n cursor stop =
    if n.generation == cursor
    then (if stop then some (false, cursor) else none)
    else some (true, n.generation)

-- What happens to a notifier between two waits of a subscriber: a notification, a try of `wait`,
-- and a try of another subscriber.
pub data Event : Type 0 where
  notified : Event
  waited : Event
  observed : ℕ → Event

abbrev pub after_wait : Option Notifier → Notifier → Notifier
after_wait none n = n
after_wait (some m) n = m

unfoldable pub happens : Event → Notifier → Notifier
happens notified n = notify n
happens waited n = after_wait (wait n) n
happens (observed cursor) n = n

unfoldable pub history : List Event → Notifier → Notifier
history [] n = n
history (event ∷ events) n = history events (happens event n)

-- The notifications of a history, and whether one came after the last try of `wait`.
abbrev pub notifications : List Event → ℕ
notifications [] = 0
notifications (notified ∷ events) = notifications events + 1
notifications (_ ∷ events) = notifications events

abbrev pub pending : Bool → List Event → Bool
pending ready [] = ready
pending ready (notified ∷ events) = pending true events
pending ready (waited ∷ events) = pending false events
pending ready (observed _ ∷ events) = pending ready events

-- A try of `wait` leaves the flag down in either case.
waited_lem :
    (ready : Bool) (generation : ℕ)
    → let n : Notifier = record { ready = ready; generation = generation } in
      after_wait (wait n) n ≡ record { ready = false; generation = generation }
unfolding wait
waited_lem true generation = refl
waited_lem false generation = refl

history_lem :
    (events : List Event) (n : Notifier)
    → ((history events n).ready ≡ pending n.ready events)
      × ((history events n).generation % 2 ^ 64 ≡ (n.generation + notifications events) % 2 ^ 64)
unfolding history happens notify wait
history_lem [] n = (refl, ap (λ x. x % 2 ^ 64) (omega arith))
history_lem (notified ∷ events) n =
    let (f, g) = history_lem events (notify n) in (f, g ∙ omega arith)
history_lem (waited ∷ events) n =
    rw (history, happens, waited_lem n.ready n.generation)
      (history_lem events (record { ready = false; generation = n.generation }))
history_lem (observed c ∷ events) n = history_lem events n

history_range :
    (events : List Event) (n : Notifier)
    → n.generation < 2 ^ 64
    → (history events n).generation < 2 ^ 64
unfolding history happens notify wait
history_range [] n h = h
history_range (notified ∷ events) n h = history_range events (notify n) (omega arith)
history_range (waited ∷ events) n h =
    rw (history, happens, waited_lem n.ready n.generation)
      (history_range events (record { ready = false; generation = n.generation }) h)
history_range (observed c ∷ events) n h = history_range events n h

goes_on :
    (same stop : Bool) (cursor generation : ℕ)
    → ◌≡◌ {A = Option (Bool × ℕ)}
        (if same then (if stop then some (false, cursor) else none) else some (true, generation))
        (some (true, generation))
    → same ≡ false
goes_on true true cursor generation e = absurd cc
goes_on true false cursor generation e = absurd cc
goes_on false stop cursor generation e = refl

fresh_generation :
    (m : Notifier) (cursor : ℕ) (stop : Bool)
    → (wait_for_new_generation m cursor stop ≡ some (true, m.generation))
      ↔ ((m.generation == cursor) ≡ false)
unfolding wait_for_new_generation
fresh_generation m cursor stop =
    ((λ e. goes_on (m.generation == cursor) stop cursor m.generation e), (λ e. rw (e) refl))

apart :
    (a b c : ℕ) → a < 2 ^ 64 → b < 2 ^ 64 → a % 2 ^ 64 ≡ (b + c) % 2 ^ 64 → (a == b) ≡ false → 0 < c
apart a b zero h k e d =
    let equal : a ≡ b = omega arith in let same = (==_iff a b).1 equal in absurd cc
apart a b (suc c) h k e d = omega arith

counted :
    (a b c : ℕ)
    → a < 2 ^ 64
    → b < 2 ^ 64
    → c < 2 ^ 64
    → a % 2 ^ 64 ≡ (b + c) % 2 ^ 64
    → ((a == b) ≡ false) ↔ (0 < c)
counted a b c h k l e = elim (Bool-cases (a == b)) [
  | inl same ↦ let equal = (==_iff a b).0 same in ((λ d. absurd cc), (λ d. absurd (omega arith)))
  | inr other ↦ ((λ d. apart a b c h k e other), (λ d. other))
]

waits_iff : (m : Notifier) → (wait m ≡ none) ↔ (m.ready ≡ false)
unfolding wait
waits_iff m = elim (Bool-cases m.ready) [
  | inl r ↦ rw (r) ((λ e. absurd cc), (λ e. absurd cc))
  | inr r ↦ rw (r) ((λ e. refl), (λ e. refl))
]

-- Whatever happens between two waits of a side subscriber, tries of `wait` and of other subscribers
-- included, it goes on exactly when there was a notification in between, up to 2^64 - 1 of them;
-- and a try of `wait` goes on exactly when there was a notification after the last one, whatever
-- side subscribers did: neither steals nor misses what the other is to see.
pub wait_for_new_generation_lem :
    (events : List Event) (n : Notifier) (stop : Bool)
    → n.generation < 2 ^ 64
    → notifications events < 2 ^ 64
    → ((wait_for_new_generation (history events n) n.generation stop
          ≡ some (true, (history events n).generation))
        ↔ (0 < notifications events))
      × ((wait (history events n) ≡ none) ↔ (pending n.ready events ≡ false))
wait_for_new_generation_lem events n stop h k =
    let m = history events n in
    let (f, g) = history_lem events n in
    let range = history_range events n h in
    let (a, b) = fresh_generation m n.generation stop in
    let (c, d) = waits_iff m in
    let counts = counted m.generation n.generation (notifications events) range h k g in
    (((λ e. counts.0 (a e)), (λ e. b (counts.1 e))), ((λ e. sym f ∙ c e), (λ e. d (f ∙ e))))
