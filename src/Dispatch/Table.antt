-- ===== src/Dispatch/Table.antt =====
-- The table of src/ublox/UbxClassMsgId.hpp, read in both directions.
use gnsshat.Base.{
  ℕ, ◌≡◌, refl, sym, ap, ◌∙◌, ◌⊎◌, ◌↔◌, inl, inr, Bool, true, false, and_true, List, [], ◌∷◌,
  Option, some, ◌==◌, ==_iff, if◌then◌else◌,
}
use gnsshat.Dispatch.{
  UbxMsg, class_msg_id, all_msgs, same_pair, find_msg, translate, ubx_ack_ack, ubx_ack_nak,
  ubx_cfg_cfg, ubx_cfg_geofence, ubx_cfg_msg, ubx_cfg_nav5, ubx_cfg_prt, ubx_cfg_rate, ubx_cfg_tp5,
  ubx_cfg_valset, ubx_cfg_valget, ubx_mon_rf, ubx_nav_dop, ubx_nav_geofence, ubx_nav_pvt,
  ubx_nav_sat, ubx_tim_tm2, ubx_mon_span, ubx_mon_ver, ubx_mon_sys,
}

same_pair_eq : (p q : ℕ × ℕ) → same_pair p q ≡ true → p ≡ q
same_pair_eq (a, b) (c, d) e =
    let (f, g) = and_true (a == c) (b == d) e in
    let f' = (==_iff a c).0 f in let g' = (==_iff b d).0 g in cc

find_step :
    (here : Bool) (later : Option UbxMsg) (m msg : UbxMsg)
    → (if here then some m else later) ≡ some msg
    → ((here ≡ true) × (m ≡ msg)) ⊎ (later ≡ some msg)
find_step true later m msg e = inl (refl, cc)
find_step false later m msg e = inr e

find_msg_class :
    (msgs : List UbxMsg) (raw : ℕ × ℕ) (msg : UbxMsg)
    → find_msg msgs raw ≡ some msg
    → class_msg_id msg ≡ raw
find_msg_class [] raw msg e = absurd cc
find_msg_class (m ∷ msgs) raw msg e =
    elim (find_step (same_pair (class_msg_id m) raw) (find_msg msgs raw) m msg e) [
      | inl (here, same) ↦ sym (ap class_msg_id same) ∙ same_pair_eq (class_msg_id m) raw here
      | inr later ↦ find_msg_class msgs raw msg later
    ]

pub translate-class_msg_id : (msg : UbxMsg) → translate (class_msg_id msg) ≡ some msg
unfolding translate
translate-class_msg_id ubx_ack_ack = refl
translate-class_msg_id ubx_ack_nak = refl
translate-class_msg_id ubx_cfg_cfg = refl
translate-class_msg_id ubx_cfg_geofence = refl
translate-class_msg_id ubx_cfg_msg = refl
translate-class_msg_id ubx_cfg_nav5 = refl
translate-class_msg_id ubx_cfg_prt = refl
translate-class_msg_id ubx_cfg_rate = refl
translate-class_msg_id ubx_cfg_tp5 = refl
translate-class_msg_id ubx_cfg_valset = refl
translate-class_msg_id ubx_cfg_valget = refl
translate-class_msg_id ubx_mon_rf = refl
translate-class_msg_id ubx_nav_dop = refl
translate-class_msg_id ubx_nav_geofence = refl
translate-class_msg_id ubx_nav_pvt = refl
translate-class_msg_id ubx_nav_sat = refl
translate-class_msg_id ubx_tim_tm2 = refl
translate-class_msg_id ubx_mon_span = refl
translate-class_msg_id ubx_mon_ver = refl
translate-class_msg_id ubx_mon_sys = refl

-- A class and an identifier are translated to a message exactly when they are the ones that this
-- message is translated to.
pub translate_iff :
    (raw : ℕ × ℕ) (msg : UbxMsg) → (translate raw ≡ some msg) ↔ (class_msg_id msg ≡ raw)
unfolding translate
translate_iff raw msg =
    ((λ e. find_msg_class all_msgs raw msg e), (λ e. rw (sym e) (translate-class_msg_id msg)))
