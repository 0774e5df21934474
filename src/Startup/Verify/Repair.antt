-- ===== src/Startup/Verify/Repair.antt =====
-- Sending the mismatches makes the verification succeed.
use gnsshat.Base.{
  ℕ, ◌≡◌, ◌≢◌, refl, sym, ap, ◌∙◌, ◌⊎◌, inl, inr, ◌↔◌, Bool, true, false, List, [], ◌∷◌, Option,
  none, some, if◌then◌else◌, Bytes, same_bytes, same_bytes_refl, same_bytes_eq, Bool-cases, All, ok,
  ◌==◌,
}
use mathlib.Core.Path.{subst}
use gnsshat.Messages.Pairs.{ConfigKeyValue}
use gnsshat.Settings.{Settings, assign, assign_all, keys_of, get_value, value_or_empty}
use gnsshat.Settings.Laws.{find-assign, find-assign_other, AllPairs, apart, same}
use gnsshat.Startup.Verify.{is_empty, agrees, verify_config, with_mismatch, find_mismatches}

IsIn : ℕ → List ℕ → Type 0
IsIn key [] = ⊥
IsIn key (k ∷ keys) = (k ≡ key) ⊎ IsIn key keys

some_injective : (xs ys : Settings) → some xs ≡ some ys → xs ≡ ys
some_injective xs ys e = cc

not_empty :
    (key : ℕ) (value : Bytes) (more : Option Settings) → with_mismatch key value more ≢ some []
not_empty key value none e = cc
not_empty key value (some more) e = cc

module _ (expected : Settings) where
  Agrees : Settings → ℕ → Type 0
  Agrees stored key = get_value stored key ≡ get_value expected key

  -- Assignments of expected values keep a key as expected.
  assign-Agrees :
      (stored : Settings) (key other : ℕ) (value : Bytes)
      → value ≡ get_value expected key
      → Agrees stored other
      → Agrees (assign stored key value) other
  unfolding Agrees
  assign-Agrees stored key other value p h = elim (Bool-cases (key == other)) [
    | inl e ↦ rw (sym (same key other e)) (ap value_or_empty (find-assign stored key value) ∙ p)
    | inr e ↦ ap value_or_empty (find-assign_other stored key other value (apart key other e)) ∙ h
  ]

  AreExpected : Settings → Type 0
  AreExpected = AllPairs (λ key value. value ≡ get_value expected key)

  stable :
      (stored cfgs : Settings) (key : ℕ)
      → AreExpected cfgs
      → Agrees stored key
      → Agrees (assign_all stored cfgs) key
  unfolding AreExpected
  stable stored [] key ps h = h
  stable stored (cfg ∷ cfgs) key (p, ps) h =
      stable (assign stored cfg.key cfg.value) cfgs key ps
        (assign-Agrees stored cfg.key key cfg.value p h)

  sent :
      (stored cfgs : Settings) (key : ℕ)
      → AreExpected cfgs
      → IsIn key (keys_of cfgs)
      → Agrees (assign_all stored cfgs) key
  unfolding AreExpected IsIn Agrees
  sent stored [] key ps h = absurd h
  sent stored (cfg ∷ cfgs) key (p, ps) (inl e) =
      stable (assign stored cfg.key cfg.value) cfgs key ps
        (rw (sym e) (ap value_or_empty (find-assign stored cfg.key cfg.value) ∙ p))
  sent stored (cfg ∷ cfgs) key (p, ps) (inr h) =
      sent (assign stored cfg.key cfg.value) cfgs key ps h

  -- One round of the loop, by its two tests.
  round :
      (key : ℕ) (value : Bytes) (empty agree : Bool) (more : Option Settings) (found : Settings)
      → (if empty then none else if agree then more else with_mismatch key value more) ≡ some found
      → (empty ≡ false)
        × (((agree ≡ true) × (more ≡ some found))
            ⊎ ((rest : Settings) × (more ≡ some rest)
                × (record { key = key; value = value } ∷ rest ≡ found)))
  round key value true agree more found e = absurd cc
  round key value false true more found e = (refl, inl (refl, e))
  round key value false false none found e = absurd cc
  round key value false false (some rest) found e = (refl, inr (rest, refl, cc))

  -- A key with an expected value that is as expected already or among the mismatches.
  IsCovered : Settings → Settings → ℕ → Type 0
  IsCovered stored found key =
      (is_empty (get_value expected key) ≡ false) × (Agrees stored key ⊎ IsIn key (keys_of found))

  weaken :
      (stored found : Settings) (cfg : ConfigKeyValue) (keys : List ℕ)
      → All (IsCovered stored found) keys
      → All (IsCovered stored (cfg ∷ found)) keys
  unfolding IsCovered IsIn
  weaken stored found cfg [] h = tt
  weaken stored found cfg (key ∷ keys) ((e, inl a), hs) =
      ((e, inl a), weaken stored found cfg keys hs)
  weaken stored found cfg (key ∷ keys) ((e, inr i), hs) =
      ((e, inr (inr i)), weaken stored found cfg keys hs)

  found-IsCovered :
      (stored : Settings) (keys : List ℕ) (found : Settings)
      → find_mismatches expected stored keys ≡ some found
      → AreExpected found × All (IsCovered stored found) keys
  unfolding find_mismatches AreExpected IsCovered IsIn Agrees
  found-IsCovered stored [] found e = (subst AreExpected (some_injective [] found e) tt, tt)
  found-IsCovered stored (key ∷ keys) found e =
      let (given, next) =
        round key (get_value expected key) (is_empty (get_value expected key))
          (agrees expected stored key) (find_mismatches expected stored keys) found e in
      elim next [
        | inl (agree, f) ↦
            let (values, covered) = found-IsCovered stored keys found f in
            (values, ((given, inl (same_bytes_eq _ _ agree)), covered))
        | inr (rest, f, g) ↦
            let (values, covered) = found-IsCovered stored keys rest f in
            subst (λ all. AreExpected all × All (IsCovered stored all) (key ∷ keys)) g
              (
                (refl, values),
                (
                  (given, inr (inl refl)),
                  weaken stored rest (record { key = key; value = get_value expected key }) keys
                      covered,
                ),
              )
      ]

  agreed : (stored : Settings) (key : ℕ) → Agrees stored key → agrees expected stored key ≡ true
  unfolding Agrees
  agreed stored key h =
      ap (λ value. same_bytes value (get_value expected key)) h
      ∙ same_bytes_refl (get_value expected key)

  verified :
      (stored found : Settings) (keys : List ℕ)
      → AreExpected found
      → All (IsCovered stored found) keys
      → verify_config expected (assign_all stored found) keys ≡ ok true
  unfolding IsCovered verify_config
  verified stored found [] values h = refl
  verified stored found (key ∷ keys) values ((given, inl a), hs) =
      rw (given, agreed (assign_all stored found) key (stable stored found key values a))
        (verified stored found keys values hs)
  verified stored found (key ∷ keys) values ((given, inr i), hs) =
      rw (given, agreed (assign_all stored found) key (sent stored found key values i))
        (verified stored found keys values hs)

  -- Where `configure` finds its mismatches and the receiver takes over exactly these pairs, the
  -- verification that follows succeeds, whatever was stored before.
  pub verify_config-assign_all :
      (stored : Settings) (keys : List ℕ) (found : Settings)
      → find_mismatches expected stored keys ≡ some found
      → verify_config expected (assign_all stored found) keys ≡ ok true
  verify_config-assign_all stored keys found e =
      let (values, covered) = found-IsCovered stored keys found e in
      verified stored found keys values covered

  -- The verification succeeds exactly when there is no mismatch to send.
  pub verify_config_iff :
      (stored : Settings) (keys : List ℕ)
      → (verify_config expected stored keys ≡ ok true)
        ↔ (find_mismatches expected stored keys ≡ some [])
  unfolding verify_config find_mismatches
  verify_config_iff stored [] = ((λ _. refl), (λ _. refl))
  verify_config_iff stored (key ∷ keys) = elim (Bool-cases (is_empty (get_value expected key))) [
    | inl missing ↦ rw (missing) ((λ e. absurd cc), (λ e. absurd cc))
    | inr given ↦ rw (given) (elim (Bool-cases (agrees expected stored key)) [
      | inl agree ↦ rw (agree) (verify_config_iff stored keys)
      | inr differ ↦ rw (differ) ((λ e. absurd cc), (λ e. absurd (not_empty _ _ _ e)))
    ])
  ]
