-- ===== src/Settings/Laws.antt =====
-- What assignments change and what they keep.
use gnsshat.Base.{
  ℕ, ◌≡◌, refl, sym, ◌∙◌, true, false, [], ◌∷◌, ◌++◌, some, ◌==◌, ==-refl, Bool-cases, inl, inr,
  Bytes, All, ◌≢◌, arith,
}
use gnsshat.Messages.Pairs.{ConfigKeyValue}
use gnsshat.Settings.{Settings, find, assign, assign_all, keys_of, get_value}

pub find-assign :
    (settings : Settings) (key : ℕ) (value : Bytes)
    → find (assign settings key value) key ≡ some value
find-assign [] key value = rw (==-refl key) refl
find-assign (cfg ∷ settings) key value = elim (Bool-cases (cfg.key == key)) [
  | inl here ↦ rw (here) (rw (here) refl)
  | inr later ↦ rw (later) (rw (later) (find-assign settings key value))
]

different : (a b : ℕ) → a ≢ b → (a == b) ≡ false
different a b h = ground arith

pub same : (a b : ℕ) → (a == b) ≡ true → a ≡ b
same a b h = ground arith

pub apart : (a b : ℕ) → (a == b) ≡ false → a ≢ b
apart a b h = ground arith

pub find-assign_other :
    (settings : Settings) (key other : ℕ) (value : Bytes)
    → key ≢ other
    → find (assign settings key value) other ≡ find settings other
find-assign_other [] key other value h = rw (different key other h) refl
find-assign_other (cfg ∷ settings) key other value h = elim (Bool-cases (cfg.key == key)) [
  | inl here ↦
      let e = different cfg.key other (λ e. h (sym (same cfg.key key here) ∙ e)) in
      rw (here) (rw (e) refl)
  | inr later ↦ rw (later) (elim (Bool-cases (cfg.key == other)) [
    | inl found ↦ rw (found) refl
    | inr missed ↦ rw (missed) (find-assign_other settings key other value h)
  ])
]

abbrev pub Has : Settings → ℕ → Type 0
Has settings key = (value : Bytes) × (find settings key ≡ some value)

pub assign-Has :
    (settings : Settings) (key other : ℕ) (value : Bytes)
    → Has settings other
    → Has (assign settings key value) other
assign-Has settings key other value (old, e) = elim (Bool-cases (key == other)) [
  | inl agree ↦ rw (sym (same key other agree)) (value, find-assign settings key value)
  | inr differ ↦ (old, find-assign_other settings key other value (apart key other differ) ∙ e)
]

pub assign_all-Has :
    (settings cfgs : Settings) (other : ℕ)
    → Has settings other
    → Has (assign_all settings cfgs) other
assign_all-Has settings [] other h = h
assign_all-Has settings (cfg ∷ cfgs) other h =
    assign_all-Has (assign settings cfg.key cfg.value) cfgs other
      (assign-Has settings cfg.key other cfg.value h)

pub assign_all-Has_keys :
    (settings cfgs : Settings) → All (Has (assign_all settings cfgs)) (keys_of cfgs)
assign_all-Has_keys settings [] = tt
assign_all-Has_keys settings (cfg ∷ cfgs) = (
  assign_all-Has (assign settings cfg.key cfg.value) cfgs cfg.key
      (cfg.value, find-assign settings cfg.key cfg.value),
  assign_all-Has_keys (assign settings cfg.key cfg.value) cfgs,
)

find_later :
    (cfg : ConfigKeyValue) (settings : Settings) (key : ℕ)
    → (cfg.key == key) ≡ false
    → find (cfg ∷ settings) key ≡ find settings key
find_later cfg settings key later = rw (later) refl

-- A property of each pair.
abbrev pub AllPairs : (ℕ → Bytes → Type 0) → Settings → Type 0
AllPairs P [] = Unit {0}
AllPairs P (cfg ∷ settings) = P cfg.key cfg.value × AllPairs P settings

module _ (P : ℕ → Bytes → Type 0) where
  pub assign-AllPairs :
      (settings : Settings) (key : ℕ) (value : Bytes)
      → P key value
      → AllPairs P settings
      → AllPairs P (assign settings key value)
  assign-AllPairs [] key value p ps = (p, tt)
  assign-AllPairs (cfg ∷ settings) key value p (q, qs) = elim (Bool-cases (cfg.key == key)) [
    | inl here ↦ rw (here) (rw (same cfg.key key here) (p, qs))
    | inr later ↦ rw (later) (q, assign-AllPairs settings key value p qs)
  ]

  pub assign_all-AllPairs :
      (settings cfgs : Settings)
      → AllPairs P cfgs
      → AllPairs P settings
      → AllPairs P (assign_all settings cfgs)
  assign_all-AllPairs settings [] ps qs = qs
  assign_all-AllPairs settings (cfg ∷ cfgs) (p, ps) qs =
      assign_all-AllPairs (assign settings cfg.key cfg.value) cfgs ps
        (assign-AllPairs settings cfg.key cfg.value p qs)

  pub AllPairs-append :
      (cfgs more : Settings) → AllPairs P cfgs → AllPairs P more → AllPairs P (cfgs ++ more)
  AllPairs-append [] more ps qs = qs
  AllPairs-append (cfg ∷ cfgs) more (p, ps) qs = (p, AllPairs-append cfgs more ps qs)

  pub AllPairs-find :
      (settings : Settings) (key : ℕ)
      → AllPairs P settings
      → Has settings key
      → P key (get_value settings key)
  AllPairs-find [] key ps (value, e) = cc
  AllPairs-find (cfg ∷ settings) key (p, ps) (value, e) = elim (Bool-cases (cfg.key == key)) [
    | inl here ↦ rw (here) (rw (sym (same cfg.key key here)) p)
    | inr later ↦
        rw (later)
          (AllPairs-find settings key ps (value, sym (find_later cfg settings key later) ∙ e))
  ]
