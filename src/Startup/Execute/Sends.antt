-- ===== src/Startup/Execute/Sends.antt =====
-- The frames that `configure` of src/ublox/Startup.cpp sends, and its calls for all groups.
use gnsshat.Base.{
  arith, ℕ, ◌+◌, ◌≡◌, Bool, true, false, List, [], ◌∷◌, ◌++◌, Option, none, some, Bytes, Result, ok,
  to_le,
}
use gnsshat.Dispatch.{ubx_cfg_valget, ubx_cfg_valset}
use gnsshat.Messages.Valget.{keys_bytes, valget_serialize, valget_poll}
use gnsshat.Messages.Valset.{Valset, layer_ram, valset_payload, valset_serialize}
use gnsshat.Settings.{Settings}
use gnsshat.Startup.Configure.{
  Transfer, World, Attempt, verify_try, repair_try, configure_try, try_times, configure,
}
use gnsshat.Startup.Execute.Sent.{
  IsUnsaved, AreUnsaved, Ends, Ends-ok, Ends-bind, Ends-then, Ends-if, built-IsUnsaved,
  await_ack-Ends,
}
use gnsshat.Startup.Execute.{
  Tries, PortTries, Inputs, configure_with, reconfigure_comm_port, configure_groups, configure_all,
}

poll_frame : (keys : List ℕ) (poll : Bytes) → valget_poll keys ≡ ok poll → IsUnsaved poll
unfolding valget_poll valget_serialize
poll_frame keys poll e =
    built-IsUnsaved 0x06 0x8B (0 ∷ 0 ∷ (to_le 2 0 ++ keys_bytes keys)) poll
      (λ f. absurd (omega arith)) e

set_frame : (msg : Valset) (frame : Bytes) → valset_serialize msg ≡ ok frame → IsUnsaved frame
unfolding valset_serialize
set_frame msg frame e =
    built-IsUnsaved 0x06 0x8A (valset_payload msg) frame (λ f. absurd (omega arith)) e

module _ (expected : Settings) where
  verify_try-Ends :
      (keys : List ℕ) (poll : Bytes) (transfer : Transfer) (world : World)
      → IsUnsaved poll
      → AreUnsaved world
      → Ends (verify_try expected keys poll transfer world)
  verify_try-Ends keys poll transfer world k h =
      Ends-then _ _ (await_ack-Ends poll ubx_cfg_valget transfer _ k h)
        (λ answered after g. Ends-bind _ _ (λ verdict _. Ends-ok verdict after g))

  repair_try-Ends :
      (keys : List ℕ) (poll : Bytes) (attempt : Attempt) (found : Option Settings) (world : World)
      → IsUnsaved poll
      → AreUnsaved world
      → Ends (repair_try expected keys poll attempt found world)
  repair_try-Ends keys poll attempt none world k h = Ends-ok false world h
  repair_try-Ends keys poll attempt (some []) world k h = Ends-ok true world h
  repair_try-Ends keys poll attempt (some (cfg ∷ cfgs)) world k h =
      let msg : Valset = record { version = 0x00; layer = layer_ram; cfg_data = cfg ∷ cfgs } in
      Ends-bind (valset_serialize msg) _ (λ payload e.
        Ends-then _ _
          (await_ack-Ends payload ubx_cfg_valset attempt.set world (set_frame msg payload e) h)
          (λ answered after g.
            Ends-if answered _ _ (verify_try-Ends keys poll attempt.check after k g)
              (Ends-ok false after g)))

  configure_try-Ends :
      (keys : List ℕ) (attempt : Attempt) (world : World)
      → AreUnsaved world
      → Ends (configure_try expected keys attempt world)
  unfolding configure_try
  configure_try-Ends keys attempt world h = Ends-bind (valget_poll keys) _ (λ poll e.
      let k = poll_frame keys poll e in
      Ends-then _ _ (await_ack-Ends poll ubx_cfg_valget attempt.poll _ k h) (λ answered after g.
        Ends-if answered _ _ (repair_try-Ends keys poll attempt _ after k g)
          (Ends-ok false after g)))

try_times-Ends {ℓ} :
    {A : Type ℓ} (task : A → World → Result (Bool × World)) (attempts : List A) (world : World)
    → ((a : A) (w : World) → AreUnsaved w → Ends (task a w))
    → AreUnsaved world
    → Ends (try_times task attempts world)
unfolding try_times
try_times-Ends task [] world each h = Ends-ok false world h
try_times-Ends task (a ∷ attempts) world each h =
    Ends-then (task a world) _ (each a world h) (λ result after g.
      Ends-if result _ _ (Ends-ok true after g) (try_times-Ends task attempts after each g))

module _ (expected : Settings) where
  configure_with-Ends :
      (keys : List ℕ) (tries : Tries) (world : World)
      → AreUnsaved world
      → Ends (configure_with expected keys tries world)
  unfolding configure
  configure_with-Ends [] tries world h = Ends-ok true world h
  configure_with-Ends (key ∷ keys) tries world h =
      try_times-Ends (configure_try expected (key ∷ keys))
        (tries.first ∷ tries.second ∷ tries.third ∷ []) world
        (configure_try-Ends expected (key ∷ keys)) h

  reconfigure-Ends :
      (keys : List ℕ) (ports : List PortTries) (world : World)
      → AreUnsaved world
      → Ends (reconfigure_comm_port expected keys ports world)
  unfolding reconfigure_comm_port
  reconfigure-Ends keys [] world h = Ends-ok false world h
  reconfigure-Ends keys (port ∷ ports) world h =
      let task = configure_with expected keys in
      Ends-then _ _ (try_times-Ends task port.before world (configure_with-Ends keys) h)
        (λ ignored before g.
          Ends-then _ _ (try_times-Ends task port.behind before (configure_with-Ends keys) g)
            (λ result behind g'.
              Ends-if result _ _ (Ends-ok true behind g') (reconfigure-Ends keys ports behind g')))

  pub configure_groups-Ends :
      (groups : List (List ℕ)) (tries : ℕ → Tries) (i : ℕ) (world : World)
      → AreUnsaved world
      → Ends (configure_groups expected groups tries i world)
  unfolding configure_groups
  configure_groups-Ends [] tries i world h = Ends-ok true world h
  configure_groups-Ends (keys ∷ groups) tries i world h =
      Ends-then _ _ (configure_with-Ends keys (tries i) world h) (λ result after g.
        Ends-if result _ _ (configure_groups-Ends groups tries (i + 1) after g)
          (Ends-ok false after g))

  pub configure_all-Ends :
      (groups : List (List ℕ)) (inputs : Inputs) (world : World)
      → AreUnsaved world
      → Ends (configure_all expected groups inputs world)
  unfolding configure_all
  configure_all-Ends [] inputs world h = Ends-ok true world h
  configure_all-Ends (keys ∷ groups) inputs world h =
      Ends-then _ _ (configure_with-Ends keys (inputs.groups 0) world h) (λ configured after g.
        Ends-then _ _
          (Ends-if configured _ _ (Ends-ok true after g)
            (reconfigure-Ends keys inputs.ports after g))
          (λ result ready g'.
            Ends-if result _ _ (configure_groups-Ends groups inputs.groups 1 ready g')
              (Ends-ok false ready g')))
