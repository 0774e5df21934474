-- ===== src/Startup/Configure/Confirmed.antt =====
-- What `configure` of src/ublox/Startup.cpp has found out when it returns true.
use gnsshat.Base.{
  ℕ, ◌≡◌, refl, inl, inr, Bool, true, false, List, [], ◌∷◌, Option, none, some, if◌then◌else◌,
  same_bytes_eq, Bool-cases, All, Bytes, Result, ok, err, ◌>>=◌,
}
use mathlib.Core.Path.{subst}
use gnsshat.Dispatch.{ubx_cfg_valget, ubx_cfg_valset}
use gnsshat.Messages.Valget.{valget_poll}
use gnsshat.Messages.Valset.{layer_ram, valset_serialize}
use gnsshat.Settings.{Settings, get_value}
use gnsshat.Startup.Configure.{
  Transfer, World, Attempt, cleared, to_be_saved, stored_values, await_ack, verify_try, repair_try,
  configure_try, try_times, configure,
}
use gnsshat.Startup.Verify.{is_empty, agrees, verify_config, find_mismatches}
use gnsshat.Startup.Verify.Repair.{verify_config_iff}

-- A key has an expected value, and the registry holds this value for it.
abbrev pub IsConfirmed : Settings → World → ℕ → Type 0
IsConfirmed expected world key =
    (is_empty (get_value expected key) ≡ false)
    × (get_value (stored_values world) key ≡ get_value expected key)

abbrev AreConfirmed : Settings → List ℕ → World → Type 0
AreConfirmed expected keys world = All (IsConfirmed expected world) keys

-- A computation that holds a property of the world where it ends with `true`.
abbrev Yields : (World → Type 0) → Result (Bool × World) → Type 0
Yields P r = (after : World) → r ≡ ok (true, after) → P after

module _ (P : World → Type 0) where
  Yields-bind {ℓ} :
      {A : Type ℓ} (m : Result A) (f : A → Result (Bool × World))
      → ((a : A) → Yields P (f a))
      → Yields P (m >>= f)
  Yields-bind (ok a) f h = h a
  Yields-bind (err e) f h = λ after same. absurd cc

  Yields-if :
      (b : Bool) (x y : Result (Bool × World))
      → Yields P x
      → Yields P y
      → Yields P (if b then x else y)
  Yields-if true x y h k = h
  Yields-if false x y h k = k

  Yields-false : (world : World) → Yields P (ok (false, world))
  Yields-false world after same = absurd cc

  Yields-true : (world : World) → P world → Yields P (ok (true, world))
  Yields-true world h after same = let there : world ≡ after = cc in subst P there h

  Yields-verdict :
      (m : Result Bool) (world : World)
      → (m ≡ ok true → P world)
      → Yields P (do verdict ← m; ok (verdict, world))
  Yields-verdict (ok true) world h = Yields-true world (h refl)
  Yields-verdict (ok false) world h = Yields-false world
  Yields-verdict (err e) world h = λ after same. absurd cc

module _ (expected : Settings) where
  verified :
      (world : World) (keys : List ℕ)
      → verify_config expected (stored_values world) keys ≡ ok true
      → AreConfirmed expected keys world
  unfolding verify_config
  verified world [] e = tt
  verified world (key ∷ keys) e = elim (Bool-cases (is_empty (get_value expected key))) [
    | inl empty ↦ absurd (let bad = rw (empty) at e in cc)
    | inr given ↦ elim (Bool-cases (agrees expected (stored_values world) key)) [
      | inl agree ↦ ((given, same_bytes_eq _ _ agree), verified world keys (rw (given, agree) at e))
      | inr differ ↦ absurd (let bad = rw (given, differ) at e in cc)
    ]
  ]

  module _ (keys : List ℕ) where
    answered_true :
        (answered : Bool) (r : Result Bool)
        → (if answered then r else ok false) ≡ ok true
        → r ≡ ok true
    answered_true true r e = e
    answered_true false r e = absurd cc

    verify_try-AreConfirmed :
        (poll : Bytes) (transfer : Transfer) (world : World)
        → Yields (AreConfirmed expected keys) (verify_try expected keys poll transfer world)
    verify_try-AreConfirmed poll transfer world =
        Yields-bind (AreConfirmed expected keys)
          (await_ack poll ubx_cfg_valget transfer (cleared (to_be_saved world))) _
          (λ (answered, after).
            let verdict = verify_config expected (stored_values after) keys in
            Yields-verdict (AreConfirmed expected keys) (if answered then verdict else ok false)
              after (λ e. verified after keys (answered_true answered verdict e)))

    repair_try-AreConfirmed :
        (poll : Bytes) (attempt : Attempt) (found : Option Settings) (world : World)
        → find_mismatches expected (stored_values world) keys ≡ found
        → Yields (AreConfirmed expected keys) (repair_try expected keys poll attempt found world)
    repair_try-AreConfirmed poll attempt none world e =
        Yields-false (AreConfirmed expected keys) world
    repair_try-AreConfirmed poll attempt (some []) world e =
        Yields-true (AreConfirmed expected keys) world
          (verified world keys ((verify_config_iff expected (stored_values world) keys).1 e))
    repair_try-AreConfirmed poll attempt (some (cfg ∷ cfgs)) world e =
        Yields-bind (AreConfirmed expected keys)
          (valset_serialize (record { version = 0x00; layer = layer_ram; cfg_data = cfg ∷ cfgs })) _
          (λ payload.
            Yields-bind (AreConfirmed expected keys)
              (await_ack payload ubx_cfg_valset attempt.set world) _
              (λ (answered, after).
                Yields-if (AreConfirmed expected keys) answered _ _
                  (verify_try-AreConfirmed poll attempt.check after)
                  (Yields-false (AreConfirmed expected keys) after)))

    configure_try-AreConfirmed :
        (attempt : Attempt) (world : World)
        → Yields (AreConfirmed expected keys) (configure_try expected keys attempt world)
    unfolding configure_try
    configure_try-AreConfirmed attempt world =
        Yields-bind (AreConfirmed expected keys) (valget_poll keys) _ (λ poll.
          Yields-bind (AreConfirmed expected keys)
            (await_ack poll ubx_cfg_valget attempt.poll (cleared world)) _
            (λ (answered, after).
              Yields-if (AreConfirmed expected keys) answered _ _
                (repair_try-AreConfirmed poll attempt _ after refl)
                (Yields-false (AreConfirmed expected keys) after)))

    again :
        (attempts : List Attempt) (r : Result (Bool × World))
        → Yields (AreConfirmed expected keys) r
        → ((next : World)
            → Yields
                (AreConfirmed expected keys)
                (try_times (configure_try expected keys) attempts next))
        → Yields (AreConfirmed expected keys) (do
          (result, next) ← r
          let later = try_times (configure_try expected keys) attempts next
          if result then ok (true, next) else later)
    again attempts (ok (true, next)) h k = h
    again attempts (ok (false, next)) h k = k next
    again attempts (err fault) h k = λ after same. absurd cc

    try_times-AreConfirmed :
        (attempts : List Attempt) (world : World)
        → Yields
            (AreConfirmed expected keys)
            (try_times (configure_try expected keys) attempts world)
    unfolding try_times
    try_times-AreConfirmed [] world = Yields-false (AreConfirmed expected keys) world
    try_times-AreConfirmed (attempt ∷ attempts) world =
        again attempts (configure_try expected keys attempt world)
          (configure_try-AreConfirmed attempt world) (try_times-AreConfirmed attempts)

-- Where `configure` returns true, whatever the driver received in its tries, each key of the group
-- has an expected value, and it is the value that the registry holds for it.
pub configure-IsConfirmed :
    (expected : Settings) (keys : List ℕ) (first second third : Attempt) (world after : World)
    → configure expected keys first second third world ≡ ok (true, after)
    → All (IsConfirmed expected after) keys
unfolding configure
configure-IsConfirmed expected [] first second third world after e = tt
configure-IsConfirmed expected (key ∷ keys) first second third world after e =
    try_times-AreConfirmed expected (key ∷ keys) (first ∷ second ∷ third ∷ []) world after e
