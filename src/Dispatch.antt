-- ===== src/Dispatch.antt =====
-- The messages of src/ublox/EUbxMsg.hpp and their classes and identifiers,
-- src/ublox/UbxClassMsgId.hpp; the acknowledgements of src/ublox/ubxmsg/UBX_ACK_ACK.hpp and
-- UBX_ACK_NAK.hpp with their callback in src/ublox/UbxCallbacks.cpp, and the registry that it sets.
pub mod Table
pub mod Acks
pub mod Parse
pub mod Kinds
pub mod Latest
pub mod Samples
mod Tests
use gnsshat.Base.{
  ℕ, Bool, true, false, ◌&&◌, List, [], ◌∷◌, Option, none, some, ◌==◌, if◌then◌else◌, Bytes, Result,
  ok, ◌>>=◌, read_at,
}
use gnsshat.Messages.Framing.{build_frame}
use gnsshat.Messages.Pairs.{ConfigKeyValue}
use gnsshat.Settings.{Settings, assign_all}

-- `END_UBX` is `none` where it can stand.
pub data UbxMsg : Type 0 where
  ubx_ack_ack : UbxMsg
  ubx_ack_nak : UbxMsg
  ubx_cfg_cfg : UbxMsg
  ubx_cfg_geofence : UbxMsg
  ubx_cfg_msg : UbxMsg
  ubx_cfg_nav5 : UbxMsg
  ubx_cfg_prt : UbxMsg
  ubx_cfg_rate : UbxMsg
  ubx_cfg_tp5 : UbxMsg
  ubx_cfg_valset : UbxMsg
  ubx_cfg_valget : UbxMsg
  ubx_mon_rf : UbxMsg
  ubx_nav_dop : UbxMsg
  ubx_nav_geofence : UbxMsg
  ubx_nav_pvt : UbxMsg
  ubx_nav_sat : UbxMsg
  ubx_tim_tm2 : UbxMsg
  ubx_mon_span : UbxMsg
  ubx_mon_ver : UbxMsg
  ubx_mon_sys : UbxMsg

-- The underlying number.
abbrev pub index : UbxMsg → ℕ
index ubx_ack_ack = 0
index ubx_ack_nak = 1
index ubx_cfg_cfg = 2
index ubx_cfg_geofence = 3
index ubx_cfg_msg = 4
index ubx_cfg_nav5 = 5
index ubx_cfg_prt = 6
index ubx_cfg_rate = 7
index ubx_cfg_tp5 = 8
index ubx_cfg_valset = 9
index ubx_cfg_valget = 10
index ubx_mon_rf = 11
index ubx_nav_dop = 12
index ubx_nav_geofence = 13
index ubx_nav_pvt = 14
index ubx_nav_sat = 15
index ubx_tim_tm2 = 16
index ubx_mon_span = 17
index ubx_mon_ver = 18
index ubx_mon_sys = 19

abbrev pub class_msg_id : UbxMsg → ℕ × ℕ
class_msg_id ubx_ack_ack = (0x05, 0x01)
class_msg_id ubx_ack_nak = (0x05, 0x00)
class_msg_id ubx_cfg_cfg = (0x06, 0x09)
class_msg_id ubx_cfg_geofence = (0x06, 0x69)
class_msg_id ubx_cfg_msg = (0x06, 0x01)
class_msg_id ubx_cfg_nav5 = (0x06, 0x24)
class_msg_id ubx_cfg_prt = (0x06, 0x00)
class_msg_id ubx_cfg_rate = (0x06, 0x08)
class_msg_id ubx_cfg_tp5 = (0x06, 0x31)
class_msg_id ubx_cfg_valset = (0x06, 0x8A)
class_msg_id ubx_cfg_valget = (0x06, 0x8B)
class_msg_id ubx_mon_rf = (0x0A, 0x38)
class_msg_id ubx_nav_dop = (0x01, 0x04)
class_msg_id ubx_nav_geofence = (0x01, 0x39)
class_msg_id ubx_nav_pvt = (0x01, 0x07)
class_msg_id ubx_nav_sat = (0x01, 0x35)
class_msg_id ubx_tim_tm2 = (0x0D, 0x03)
class_msg_id ubx_mon_span = (0x0A, 0x31)
class_msg_id ubx_mon_ver = (0x0A, 0x04)
class_msg_id ubx_mon_sys = (0x0A, 0x39)

-- The places of the table, in order.
abbrev pub all_msgs : List UbxMsg
all_msgs =
    ubx_ack_ack ∷ ubx_ack_nak ∷ ubx_cfg_cfg ∷ ubx_cfg_geofence ∷ ubx_cfg_msg ∷ ubx_cfg_nav5
    ∷ ubx_cfg_prt ∷ ubx_cfg_rate ∷ ubx_cfg_tp5 ∷ ubx_cfg_valset ∷ ubx_cfg_valget ∷ ubx_mon_rf
    ∷ ubx_nav_dop ∷ ubx_nav_geofence ∷ ubx_nav_pvt ∷ ubx_nav_sat ∷ ubx_tim_tm2 ∷ ubx_mon_span
    ∷ ubx_mon_ver ∷ ubx_mon_sys ∷ []

abbrev pub same_pair : ℕ × ℕ → ℕ × ℕ → Bool
same_pair (a, b) (c, d) = (a == c) && (b == d)

-- `std::find` in the table.
abbrev pub find_msg : List UbxMsg → ℕ × ℕ → Option UbxMsg
find_msg [] raw = none
find_msg (msg ∷ msgs) raw =
    let later = find_msg msgs raw in if same_pair (class_msg_id msg) raw then some msg else later

unfoldable pub translate : ℕ × ℕ → Option UbxMsg
translate raw = find_msg all_msgs raw

-- `serialize` of the two messages, and their `deserialize`.
unfoldable pub ack_serialize : ℕ × ℕ → Result Bytes
ack_serialize (class_id, msg_id) =
    build_frame (0xB5 ∷ 0x62 ∷ 0x05 ∷ 0x01 ∷ 0x02 ∷ 0x00 ∷ class_id ∷ msg_id ∷ [])

unfoldable pub nak_serialize : ℕ × ℕ → Result Bytes
nak_serialize (class_id, msg_id) =
    build_frame (0xB5 ∷ 0x62 ∷ 0x05 ∷ 0x00 ∷ 0x02 ∷ 0x00 ∷ class_id ∷ msg_id ∷ [])

unfoldable pub ack_deserialize : Bytes → Result (ℕ × ℕ)
ack_deserialize frame = do
  class_id ← read_at frame 6
  msg_id ← read_at frame 7
  ok (class_id, msg_id)

-- The flags by message, and `storedConfigValues_`.
pub record Registry : Type 0 where
  pub acks : UbxMsg → Bool
  pub naks : UbxMsg → Bool
  pub stored_config_values : Settings
  pub should_save_config_to_flash : Bool

abbrev pub raise : UbxMsg → (UbxMsg → Bool) → UbxMsg → Bool
raise msg flags other = if index msg == index other then true else flags other

unfoldable pub registry_ack : Registry → UbxMsg → Registry
registry_ack registry msg = record registry { acks = raise msg registry.acks }

unfoldable pub registry_nak : Registry → UbxMsg → Registry
registry_nak registry msg = record registry { naks = raise msg registry.naks }

-- `ackNakCb` for an acknowledgement and for a refusal.
abbrev pub ack_cb : Registry → Option UbxMsg → Registry
ack_cb registry none = registry
ack_cb registry (some msg) = registry_ack registry msg

abbrev pub nak_cb : Registry → Option UbxMsg → Registry
nak_cb registry none = registry
nak_cb registry (some msg) = registry_nak registry msg

-- The callback of a VALGET response.
unfoldable pub valget_cb : Registry → List ConfigKeyValue → Registry
valget_cb registry config_data = record registry {
  stored_config_values = assign_all registry.stored_config_values config_data;
}

-- `create` and `run` for a frame of either kind.
unfoldable pub run_ack : Registry → Bytes → Result Registry
run_ack registry frame = do raw ← ack_deserialize frame; ok (ack_cb registry (translate raw))

unfoldable pub run_nak : Registry → Bytes → Result Registry
run_nak registry frame = do raw ← ack_deserialize frame; ok (nak_cb registry (translate raw))
