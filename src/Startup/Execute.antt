-- ===== src/Startup/Execute.antt =====
-- `execute` and `reconfigureCommPort` of the three receivers, `saveCurrentConfigToFlash` and
-- `pollMonVer` of src/ublox/Startup.cpp, over `configure`. What the driver receives is an input;
-- the modes and baud rates that it is set to are not modelled.
pub mod Sent
pub mod Sends
pub mod Unsaved
mod Tests
use gnsshat.Base.{
  ℕ, ◌+◌, Bool, true, false, ◌&&◌, List, [], ◌∷◌, ◌++◌, if◌then◌else◌, Bytes, Result, ok, ◌>>=◌,
}
use gnsshat.Config.{Floating, GnssConfig}
use gnsshat.Dispatch.{ubx_cfg_cfg}
use gnsshat.Dispatch.Parse.{with_registry, parse_buffer, consume_mon_ver}
use gnsshat.Legacy.Simple.{save_to_flash, start_gnss}
use gnsshat.Messages.Framing.{build_frame}
use gnsshat.Settings.{Settings}
use gnsshat.Startup.Configure.{
  Transfer, World, with_receiver, Attempt, joined, await_ack, try_times, configure,
}
use gnsshat.Startup.Strategies.{
  m9n_groups, f10t_expected, f10t_groups, f9p_expected, f9p_own_groups,
}

-- The three tries of one call of `configure`.
pub record Tries : Type 0 where
  pub first : Attempt
  pub second : Attempt
  pub third : Attempt

-- The calls of `configure` with one setting of the port, before it is set back and behind: at most
-- three of each in the source, one for each try.
pub record PortTries : Type 0 where
  pub before : List Tries
  pub behind : List Tries

-- All that the driver receives: for each group by its number, for the settings of the port, for the
-- saving to the flash, at most three tries, and for the version.
pub record Inputs : Type 0 where
  pub groups : ℕ → Tries
  pub ports : List PortTries
  pub saves : List Transfer
  pub version : Transfer

abbrev pub configure_with : Settings → List ℕ → Tries → World → Result (Bool × World)
configure_with expected keys tries world =
    configure expected keys tries.first tries.second tries.third world

unfoldable pub reconfigure_comm_port :
    Settings → List ℕ → List PortTries → World → Result (Bool × World)
reconfigure_comm_port expected keys [] world = ok (false, world)
reconfigure_comm_port expected keys (port ∷ ports) world = do
  (ignored, before) ← try_times (configure_with expected keys) port.before world
  (result, behind) ← try_times (configure_with expected keys) port.behind before
  let later = reconfigure_comm_port expected keys ports behind
  if result then ok (true, behind) else later

-- The groups behind the first, from the one with number `i` on.
unfoldable pub configure_groups :
    Settings → List (List ℕ) → (ℕ → Tries) → ℕ → World → Result (Bool × World)
configure_groups expected [] tries i world = ok (true, world)
configure_groups expected (keys ∷ groups) tries i world = do
  (result, after) ← configure_with expected keys (tries i) world
  let later = configure_groups expected groups tries (i + 1) after
  if result then later else ok (false, after)

-- The first group is that of the port; where it fails, the port is searched for.
unfoldable pub configure_all : Settings → List (List ℕ) → Inputs → World → Result (Bool × World)
configure_all expected [] inputs world = ok (true, world)
configure_all expected (keys ∷ groups) inputs world = do
  (configured, after) ← configure_with expected keys (inputs.groups 0) world
  let searched = reconfigure_comm_port expected keys inputs.ports after
  (result, ready) ← (if configured then ok (true, after) else searched)
  let later = configure_groups expected groups inputs.groups 1 ready
  if result then later else ok (false, ready)

unfoldable pub save_current_config_to_flash : Transfer → World → Result (Bool × World)
save_current_config_to_flash transfer world = do
  payload ← save_to_flash
  await_ack payload ubx_cfg_cfg transfer world

abbrev pub save_if_needed : Bool → List Transfer → World → Result (Bool × World)
save_if_needed save transfers world =
    let saved = try_times save_current_config_to_flash transfers world in
    if save && world.receiver.registry.should_save_config_to_flash then saved else ok (true, world)

-- What is received meanwhile is not parsed.
unfoldable pub send_gnss_engine_start : World → Result World
send_gnss_engine_start world = do
  frame ← start_gnss
  ok (record world { sent = world.sent ++ frame ∷ [] })

-- The flag of `consumeMonVer` is lowered by each test.
abbrev pub version_tested : World → World
version_tested world = with_receiver world ((consume_mon_ver world.receiver).1)

unfoldable pub mon_ver_loop : World → Bytes → List Bytes → Result World
mon_ver_loop world unfinished [] = ok world
mon_ver_loop world unfinished ([] ∷ reads) = mon_ver_loop world unfinished reads
mon_ver_loop world unfinished ((b ∷ bytes) ∷ reads) = do
  buffer ← joined unfinished (b ∷ bytes)
  (receiver, left) ← parse_buffer world.receiver buffer
  let next = version_tested (with_receiver world receiver)
  let later = mon_ver_loop next left reads
  if receiver.mon_ver_seen then ok next else later

-- It is true in any case.
unfoldable pub poll_mon_ver : Transfer → World → Result World
poll_mon_ver transfer world = do
  frame ← build_frame (0xB5 ∷ 0x62 ∷ 0x0A ∷ 0x04 ∷ 0x00 ∷ 0x00 ∷ [])
  (receiver, left) ← parse_buffer ((consume_mon_ver world.receiver).1) transfer.received
  let polled : World = record { receiver = receiver; sent = world.sent ++ frame ∷ [] }
  let next = version_tested polled
  let later = mon_ver_loop next left (transfer.polled ∷ transfer.polled_later)
  if receiver.mon_ver_seen then ok next else later

-- `shouldSaveConfigToFlash(false)`.
abbrev pub not_to_be_saved : World → World
not_to_be_saved world =
    let registry = world.receiver.registry in
    with_receiver world
      (with_registry world.receiver (record registry { should_save_config_to_flash = false }))

module _ (F : Floating) where
  -- `execute` of an M9N; an F9P runs it with its own expected values.
  unfoldable pub m9n_startup : Settings → GnssConfig F.Real → Inputs → World → Result (Bool × World)
  m9n_startup expected config inputs world = do
    (configured, after) ← configure_all expected (m9n_groups F config) inputs world
    (result, saved) ←
        (if configured
          then save_if_needed config.save_to_flash inputs.saves after
          else ok (false, after))
    let finished = (do
      started ← send_gnss_engine_start saved
      known ← poll_mon_ver inputs.version started
      ok (true, known))
    if result then finished else ok (false, saved)

  unfoldable pub f10t_startup : GnssConfig F.Real → Inputs → World → Result (Bool × World)
  f10t_startup config inputs world = do
    (configured, after) ←
        configure_all (f10t_expected F config) (f10t_groups F config) inputs (not_to_be_saved world)
    (result, saved) ←
        (if configured
          then save_if_needed config.save_to_flash inputs.saves after
          else ok (false, after))
    let finished = (do known ← poll_mon_ver inputs.version saved; ok (true, known))
    if result then finished else ok (false, saved)

  -- The groups of an F9P behind those of an M9N have inputs of their own.
  unfoldable pub f9p_startup :
      GnssConfig F.Real → Inputs → (ℕ → Tries) → List Transfer → World → Result (Bool × World)
  f9p_startup config inputs own_groups own_saves world = do
    (begun, ready) ← m9n_startup (f9p_expected F config) config inputs world
    let own =
        configure_groups (f9p_expected F config) (f9p_own_groups F config) own_groups 0
          (not_to_be_saved ready)
    (configured, after) ← (if begun then own else ok (false, ready))
    let saved = save_if_needed config.save_to_flash own_saves after
    if configured then saved else ok (false, after)
