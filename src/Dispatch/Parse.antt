-- ===== src/Dispatch/Parse.antt =====
-- `parse` of src/ublox/UbxParser.cpp: the frames that are extracted, deserialized by the factory
-- (src/ublox/UbxFactory.cpp) and handed to the callbacks (src/ublox/UbxCallbacks.cpp).
use gnsshat.Base.{
  ℕ, ◌+◌, Bool, true, false, List, [], ◌∷◌, Option, none, some, Bytes, Result, ok, ◌>>=◌, read_at,
}
use gnsshat.Dispatch.{
  UbxMsg, Registry, translate, valget_cb, run_ack, run_nak, ubx_ack_ack, ubx_ack_nak, ubx_cfg_cfg,
  ubx_cfg_geofence, ubx_cfg_msg, ubx_cfg_nav5, ubx_cfg_prt, ubx_cfg_rate, ubx_cfg_tp5,
  ubx_cfg_valset, ubx_cfg_valget, ubx_mon_rf, ubx_nav_dop, ubx_nav_geofence, ubx_nav_pvt,
  ubx_nav_sat, ubx_tim_tm2, ubx_mon_span, ubx_mon_ver, ubx_mon_sys,
}
use gnsshat.Legacy.Simple.{
  rate_deserialize, nav5_deserialize, msg_deserialize, geofence_deserialize,
}
use gnsshat.Legacy.Timepulse5.{tp5_deserialize}
use gnsshat.Legacy.Port.{port_deserialize}
use gnsshat.Messages.Valset.{valset_deserialize}
use gnsshat.Messages.Valget.{valget_deserialize}
use gnsshat.Navigation.Types.{SystemHealth, MonVer}
use gnsshat.Navigation.Position.{pvt_deserialize, dop_deserialize, time_mark_deserialize}
use gnsshat.Navigation.Satellites.{sat_deserialize, geofencing_nav_deserialize}
use gnsshat.Navigation.Monitor.{rf_deserialize, span_deserialize, sys_deserialize, ver_deserialize}
use gnsshat.Navigation.Store.{
  NavigationStore, set_dop, set_pvt, set_geofencing_nav, set_rf_blocks, set_spectrum,
  set_satellites, set_mon_ver, set_system_health, set_time_mark,
}
use gnsshat.Ubx.Frames.{extract_frames, max_number_of_frames}

-- The state that `parse` changes: the registry, the store, the two messages of the factory that
-- keep what they held when a frame is too short, the two flags of the callbacks and the number of
-- times that the notifier of the time marks was called.
pub record Receiver : Type 0 where
  pub registry : Registry
  pub store : NavigationStore
  pub mon_ver : MonVer
  pub mon_sys : SystemHealth
  pub navigation_epoch_seen : Bool
  pub mon_ver_seen : Bool
  pub time_mark_notifications : ℕ

abbrev pub with_store : Receiver → NavigationStore → Receiver
with_store receiver store = record receiver { store = store }

abbrev pub with_registry : Receiver → Registry → Receiver
with_registry receiver registry = record receiver { registry = registry }

-- `create` and `run` for one message.
unfoldable pub run_msg : Receiver → UbxMsg → Bytes → Result Receiver
run_msg receiver ubx_ack_ack frame = do
  registry ← run_ack receiver.registry frame
  ok (with_registry receiver registry)
run_msg receiver ubx_ack_nak frame = do
  registry ← run_nak receiver.registry frame
  ok (with_registry receiver registry)
run_msg receiver ubx_cfg_cfg frame = ok receiver
run_msg receiver ubx_cfg_geofence frame = do msg ← geofence_deserialize frame; ok receiver
run_msg receiver ubx_cfg_msg frame = do msg ← msg_deserialize frame; ok receiver
run_msg receiver ubx_cfg_nav5 frame = do msg ← nav5_deserialize frame; ok receiver
run_msg receiver ubx_cfg_prt frame = do msg ← port_deserialize frame; ok receiver
run_msg receiver ubx_cfg_rate frame = do msg ← rate_deserialize frame; ok receiver
run_msg receiver ubx_cfg_tp5 frame = do msg ← tp5_deserialize frame; ok receiver
run_msg receiver ubx_cfg_valset frame = do msg ← valset_deserialize frame; ok receiver
run_msg receiver ubx_cfg_valget frame = do
  msg ← valget_deserialize frame
  ok (with_registry receiver (valget_cb receiver.registry msg.config_data))
run_msg receiver ubx_mon_rf frame = do
  blocks ← rf_deserialize frame
  ok (with_store receiver (set_rf_blocks receiver.store blocks))
run_msg receiver ubx_nav_dop frame = do
  dop ← dop_deserialize frame
  ok (with_store receiver (set_dop receiver.store dop))
run_msg receiver ubx_nav_geofence frame = do
  nav ← geofencing_nav_deserialize frame
  ok (with_store receiver (set_geofencing_nav receiver.store nav))
run_msg receiver ubx_nav_pvt frame = do
  pvt ← pvt_deserialize frame
  ok (record receiver { store = set_pvt receiver.store pvt; navigation_epoch_seen = true })
run_msg receiver ubx_nav_sat frame = do
  satellites ← sat_deserialize frame
  ok (with_store receiver (set_satellites receiver.store satellites))
run_msg receiver ubx_tim_tm2 frame = do
  time_mark ← time_mark_deserialize frame
  ok (record receiver {
    store = set_time_mark receiver.store time_mark;
    time_mark_notifications = receiver.time_mark_notifications + 1;
  })
run_msg receiver ubx_mon_span frame = do
  blocks ← span_deserialize frame
  ok (with_store receiver (set_spectrum receiver.store blocks))
run_msg receiver ubx_mon_ver frame = do
  ver ← ver_deserialize receiver.mon_ver frame
  ok (record receiver {
    store = set_mon_ver receiver.store ver;
    mon_ver = ver;
    mon_ver_seen = true;
  })
run_msg receiver ubx_mon_sys frame = do
  health ← sys_deserialize receiver.mon_sys frame
  ok (record receiver { store = set_system_health receiver.store health; mon_sys = health })

abbrev pub run_translated : Receiver → Option UbxMsg → Bytes → Result Receiver
run_translated receiver none frame = ok receiver
run_translated receiver (some msg) frame = run_msg receiver msg frame

-- One round of the loop of `parse`; an empty frame is passed over.
unfoldable pub run_frame : Receiver → Bytes → Result Receiver
run_frame receiver [] = ok receiver
run_frame receiver (b ∷ bytes) = do
  class_id ← read_at (b ∷ bytes) 2
  msg_id ← read_at (b ∷ bytes) 3
  run_translated receiver (translate (class_id, msg_id)) (b ∷ bytes)

unfoldable pub run_frames : Receiver → List Bytes → Result Receiver
run_frames receiver [] = ok receiver
run_frames receiver (frame ∷ frames) = do after ← run_frame receiver frame; run_frames after frames

-- `parse`: the state after it, and the unfinished bytes that it hands back.
unfoldable pub parse_buffer : Receiver → Bytes → Result (Receiver × Bytes)
parse_buffer receiver buffer = do
  extracted ← extract_frames max_number_of_frames buffer
  after ← run_frames receiver extracted.frames
  ok (after, extracted.unfinished)

-- `consumeNavigationEpoch` and `consumeMonVer`.
abbrev pub consume_navigation_epoch : Receiver → Bool × Receiver
consume_navigation_epoch receiver =
    (receiver.navigation_epoch_seen, record receiver { navigation_epoch_seen = false })

abbrev pub consume_mon_ver : Receiver → Bool × Receiver
consume_mon_ver receiver = (receiver.mon_ver_seen, record receiver { mon_ver_seen = false })
