-- ===== src/Startup/Execute/Unsaved.antt =====
-- What the startup of src/ublox/Startup.cpp sends where the configuration does not ask for the
-- flash.
use gnsshat.Base.{arith, ℕ, ◌≡◌, Bool, true, false, List, [], ◌∷◌, Bytes, ok, to_le}
use gnsshat.Config.{Floating, GnssConfig}
use gnsshat.Dispatch.Parse.{parse_buffer}
use gnsshat.Legacy.Simple.{start_gnss}
use gnsshat.Messages.Framing.{build_frame}
use gnsshat.Settings.{Settings}
use gnsshat.Startup.Configure.{Transfer, World, with_receiver, joined}
use gnsshat.Startup.Strategies.{m9n_groups, f9p_expected, f9p_own_groups}
use gnsshat.Startup.Execute.Sends.{configure_groups-Ends, configure_all-Ends}
use gnsshat.Startup.Execute.Sent.{
  IsUnsaved, AreUnsaved, Ends, EndsIn, Ends-ok, EndsIn-ok, EndsIn-bind, Ends-then, Ends-after,
  Ends-if, EndsIn-if, built-IsUnsaved, one_more,
}
use gnsshat.Startup.Execute.{
  version_tested, not_to_be_saved, Tries, Inputs, save_if_needed, send_gnss_engine_start,
  mon_ver_loop, poll_mon_ver, m9n_startup, f9p_startup,
}

start_frame : (frame : Bytes) → start_gnss ≡ ok frame → IsUnsaved frame
unfolding to_le
start_frame frame e =
    built-IsUnsaved 0x06 0x04 (0 ∷ 0 ∷ 9 ∷ 0 ∷ []) frame (λ f. absurd (omega arith)) e

save_if_needed-Ends :
    (save : Bool) (transfers : List Transfer) (world : World)
    → save ≡ false
    → AreUnsaved world
    → Ends (save_if_needed save transfers world)
save_if_needed-Ends true transfers world e h = absurd cc
save_if_needed-Ends false transfers world e h = Ends-ok true world h

mon_ver_loop-EndsIn :
    (world : World) (unfinished : Bytes) (reads : List Bytes)
    → AreUnsaved world
    → EndsIn (mon_ver_loop world unfinished reads)
unfolding mon_ver_loop
mon_ver_loop-EndsIn world unfinished [] h = EndsIn-ok world h
mon_ver_loop-EndsIn world unfinished ([] ∷ reads) h = mon_ver_loop-EndsIn world unfinished reads h
mon_ver_loop-EndsIn world unfinished ((b ∷ bytes) ∷ reads) h =
    EndsIn-bind (joined unfinished (b ∷ bytes)) _ (λ buffer _.
      EndsIn-bind (parse_buffer world.receiver buffer) _ (λ (receiver, left) _.
        let next = version_tested (with_receiver world receiver) in
        EndsIn-if _ _ _ (EndsIn-ok next h) (mon_ver_loop-EndsIn next left reads h)))

poll_mon_ver-EndsIn :
    (transfer : Transfer) (world : World) → AreUnsaved world → EndsIn (poll_mon_ver transfer world)
unfolding poll_mon_ver to_le
poll_mon_ver-EndsIn transfer world h =
    EndsIn-bind (build_frame (0xB5 ∷ 0x62 ∷ 0x0A ∷ 0x04 ∷ 0x00 ∷ 0x00 ∷ [])) _ (λ frame e.
      let k = built-IsUnsaved 0x0A 0x04 [] frame (λ f. absurd (omega arith)) e in
      let sent = one_more world.sent frame h k in
      EndsIn-bind (parse_buffer _ transfer.received) _ (λ (receiver, left) _.
        EndsIn-if _ _ _ (EndsIn-ok _ sent)
          (mon_ver_loop-EndsIn _ left (transfer.polled ∷ transfer.polled_later) sent)))

send_gnss_engine_start-EndsIn :
    (world : World) → AreUnsaved world → EndsIn (send_gnss_engine_start world)
unfolding send_gnss_engine_start
send_gnss_engine_start-EndsIn world h =
    EndsIn-bind start_gnss _
      (λ frame e. EndsIn-ok _ (one_more world.sent frame h (start_frame frame e)))

module _ (F : Floating) (config : GnssConfig F.Real) where
  m9n_startup-Ends :
      (expected : Settings) (inputs : Inputs) (world : World)
      → config.save_to_flash ≡ false
      → AreUnsaved world
      → Ends (m9n_startup F expected config inputs world)
  unfolding m9n_startup
  m9n_startup-Ends expected inputs world e h =
      Ends-then _ _ (configure_all-Ends expected (m9n_groups F config) inputs world h)
        (λ configured after g.
          Ends-then _ _
            (Ends-if configured _ _
              (save_if_needed-Ends config.save_to_flash inputs.saves after e g)
              (Ends-ok false after g))
            (λ result saved g'.
              Ends-if result _ _
                (Ends-after _ _ (send_gnss_engine_start-EndsIn saved g') (λ started g''.
                  Ends-after _ _ (poll_mon_ver-EndsIn inputs.version started g'')
                    (λ known last. Ends-ok true known last)))
                (Ends-ok false saved g')))

  -- Where the configuration does not ask for the flash and no frame of UBX-CFG-CFG, the message that
  -- saves to the flash, was sent before, a startup of an F9P that returns, that of an M9N included,
  -- has sent none: whatever it received, whether or not it found mismatches, and whether it
  -- succeeded or failed.
  pub f9p_startup-AreUnsaved :
      (inputs : Inputs) (own_groups : ℕ → Tries) (own_saves : List Transfer) (world after : World)
      (result : Bool)
      → config.save_to_flash ≡ false
      → AreUnsaved world
      → f9p_startup F config inputs own_groups own_saves world ≡ ok (result, after)
      → AreUnsaved after
  unfolding f9p_startup
  f9p_startup-AreUnsaved inputs own_groups own_saves world after result e h =
      Ends-then _ _ (m9n_startup-Ends (f9p_expected F config) inputs world e h)
        (λ begun ready g.
          Ends-then _ _
            (Ends-if begun _ _
              (configure_groups-Ends (f9p_expected F config) (f9p_own_groups F config) own_groups 0
                (not_to_be_saved ready) g)
              (Ends-ok false ready g))
            (λ configured next g'.
              Ends-if configured _ _ (save_if_needed-Ends config.save_to_flash own_saves next e g')
                (Ends-ok false next g')))
        result after
