-- ===== src/Startup/Configure.antt =====
-- `awaitAck` and `configure` of src/ublox/Startup.cpp, and `try3times` of src/common/Utils.cpp.
-- What the driver receives, and how often it is asked before the deadline of five seconds, are
-- inputs; what is sent is an output.
pub mod Confirmed
mod Tests
use gnsshat.Base.{
  ℕ, ◌-◌, Bool, true, false, List, [], ◌∷◌, ◌++◌, Option, none, some, ltb, if◌then◌else◌, length,
  take, Bytes, Result, ok, err, out_of_bounds, ◌>>=◌, ◌==◌,
}
use gnsshat.Dispatch.{UbxMsg, index, ubx_cfg_valget, ubx_cfg_valset}
use gnsshat.Dispatch.Parse.{Receiver, with_registry, parse_buffer}
use gnsshat.Messages.Valget.{valget_poll}
use gnsshat.Messages.Valset.{layer_ram, valset_serialize}
use gnsshat.Settings.{Settings}
use gnsshat.Startup.Verify.{verify_config, find_mismatches}

-- The buffer after `transmitReceive`, the first read of the loop, and those that follow before the
-- deadline; a read that gave nothing is empty.
pub record Transfer : Type 0 where
  pub received : Bytes
  pub polled : Bytes
  pub polled_later : List Bytes

pub record World : Type 0 where
  pub receiver : Receiver
  pub sent : List Bytes

abbrev pub with_receiver : World → Receiver → World
with_receiver world receiver = record world { receiver = receiver }

abbrev pub rx_buff_size : ℕ
rx_buff_size = 1024

-- `std::copy` of the unfinished bytes to the buffer, and the bytes that are read behind them.
abbrev pub joined : Bytes → Bytes → Result Bytes
joined unfinished bytes =
    if ltb rx_buff_size (length unfinished)
    then err out_of_bounds
    else ok (unfinished ++ take (rx_buff_size - length unfinished) bytes)

abbrev pub acked : UbxMsg → Receiver → Bool
acked msg receiver = receiver.registry.acks msg

-- The loop of `awaitAck`.
unfoldable pub await_loop : UbxMsg → World → Bytes → List Bytes → Result (Bool × World)
await_loop msg world unfinished [] = ok (false, world)
await_loop msg world unfinished ([] ∷ reads) = await_loop msg world unfinished reads
await_loop msg world unfinished ((b ∷ bytes) ∷ reads) = do
  buffer ← joined unfinished (b ∷ bytes)
  (receiver, left) ← parse_buffer world.receiver buffer
  let later = await_loop msg (with_receiver world receiver) left reads
  if acked msg receiver then ok (true, with_receiver world receiver) else later

abbrev pub lowered : UbxMsg → (UbxMsg → Bool) → UbxMsg → Bool
lowered msg flags other = if index msg == index other then false else flags other

abbrev pub without_ack : UbxMsg → Receiver → Receiver
without_ack msg receiver =
    let registry = receiver.registry in
    with_registry receiver (record registry { acks = lowered msg registry.acks })

unfoldable pub await_ack : Bytes → UbxMsg → Transfer → World → Result (Bool × World)
await_ack payload msg transfer world = do
  (receiver, left) ← parse_buffer (without_ack msg world.receiver) transfer.received
  let next : World = record { receiver = receiver; sent = world.sent ++ payload ∷ [] }
  let later = await_loop msg next left (transfer.polled ∷ transfer.polled_later)
  if acked msg receiver then ok (true, next) else later

-- `clearStoredConfigValues`, and `shouldSaveConfigToFlash` with it.
abbrev pub cleared : World → World
cleared world =
    let registry = world.receiver.registry in
    with_receiver world
      (with_registry world.receiver (record registry { stored_config_values = [] }))

abbrev pub to_be_saved : World → World
to_be_saved world =
    let registry = world.receiver.registry in
    with_receiver world
      (with_registry world.receiver (record registry { should_save_config_to_flash = true }))

abbrev pub stored_values : World → Settings
stored_values world = world.receiver.registry.stored_config_values

-- The three transfers of one try.
pub record Attempt : Type 0 where
  pub poll : Transfer
  pub set : Transfer
  pub check : Transfer

-- From the verification poll on.
abbrev pub verify_try : Settings → List ℕ → Bytes → Transfer → World → Result (Bool × World)
verify_try expected keys poll transfer world = do
  (answered, after) ← await_ack poll ubx_cfg_valget transfer (cleared (to_be_saved world))
  verified ← (if answered then verify_config expected (stored_values after) keys else ok false)
  ok (verified, after)

-- With the mismatches that were found.
abbrev pub repair_try :
    Settings → List ℕ → Bytes → Attempt → Option Settings → World → Result (Bool × World)
repair_try expected keys poll attempt none world = ok (false, world)
repair_try expected keys poll attempt (some []) world = ok (true, world)
repair_try expected keys poll attempt (some (cfg ∷ cfgs)) world = do
  payload ← valset_serialize (record { version = 0x00; layer = layer_ram; cfg_data = cfg ∷ cfgs })
  (answered, after) ← await_ack payload ubx_cfg_valset attempt.set world
  let later = verify_try expected keys poll attempt.check after
  if answered then later else ok (false, after)

-- The lambda of `configure`.
unfoldable pub configure_try : Settings → List ℕ → Attempt → World → Result (Bool × World)
configure_try expected keys attempt world = do
  poll ← valget_poll keys
  (answered, after) ← await_ack poll ubx_cfg_valget attempt.poll (cleared world)
  let found = find_mismatches expected (stored_values after) keys
  let later = repair_try expected keys poll attempt found after
  if answered then later else ok (false, after)

-- `try3times` for the three outcomes of a task that changes the world.
unfoldable pub try_times {ℓ} :
    {A : Type ℓ} → (A → World → Result (Bool × World)) → List A → World → Result (Bool × World)
try_times task [] world = ok (false, world)
try_times task (attempt ∷ attempts) world = do
  (result, after) ← task attempt world
  let later = try_times task attempts after
  if result then ok (true, after) else later

unfoldable pub configure :
    Settings → List ℕ → Attempt → Attempt → Attempt → World → Result (Bool × World)
configure expected [] first second third world = ok (true, world)
configure expected (key ∷ keys) first second third world =
    try_times (configure_try expected (key ∷ keys)) (first ∷ second ∷ third ∷ []) world
