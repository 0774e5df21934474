-- ===== src/Dispatch/Latest.antt =====
-- What the store of src/ublox/NavigationStore.cpp holds after `parse` of src/ublox/UbxParser.cpp.
use gnsshat.Base.{
  ◌≡◌, refl, sym, ap, ◌∙◌, inl, inr, true, false, List, [], ◌∷◌, Option, none, some, Bool-cases,
  Bytes, Result, ok, err, ◌>>=◌, if◌then◌else◌,
}
use gnsshat.Dispatch.{
  UbxMsg, translate, run_ack, run_nak, ubx_ack_ack, ubx_ack_nak, ubx_cfg_cfg, ubx_cfg_geofence,
  ubx_cfg_msg, ubx_cfg_nav5, ubx_cfg_prt, ubx_cfg_rate, ubx_cfg_tp5, ubx_cfg_valset, ubx_cfg_valget,
  ubx_mon_rf, ubx_nav_dop, ubx_nav_geofence, ubx_nav_pvt, ubx_nav_sat, ubx_tim_tm2, ubx_mon_span,
  ubx_mon_ver, ubx_mon_sys,
}
use gnsshat.Dispatch.Kinds.{
  Kind, Place, place, placed, decode, is_kind, of_kind, newest, latest, dop_kind, pvt_kind,
  geofence_kind, rf_kind, span_kind, satellite_kind, time_mark_kind,
}
use gnsshat.Dispatch.Parse.{Receiver, run_msg, run_translated, run_frame, run_frames}
use gnsshat.Legacy.Simple.{
  rate_deserialize, nav5_deserialize, msg_deserialize, geofence_deserialize,
}
use gnsshat.Legacy.Timepulse5.{tp5_deserialize}
use gnsshat.Legacy.Port.{port_deserialize}
use gnsshat.Messages.Valset.{valset_deserialize}
use gnsshat.Messages.Valget.{valget_deserialize}
use gnsshat.Navigation.Types.{
  PositionVelocityTime, DilutionOverPrecision, SatelliteInfo, RfBlock, RfBlockSpectrumData,
  TimeMark, GeofencingNav, MonVer, SystemHealth,
}
use gnsshat.Navigation.Position.{pvt_deserialize, dop_deserialize, time_mark_deserialize}
use gnsshat.Navigation.Satellites.{sat_deserialize, geofencing_nav_deserialize}
use gnsshat.Navigation.Monitor.{rf_deserialize, span_deserialize, ver_deserialize, sys_deserialize}
use gnsshat.Navigation.Store.{
  NavigationStore, set_dop, set_pvt, set_geofencing_nav, set_rf_blocks, set_spectrum,
  set_satellites, set_time_mark, set_mon_ver, set_system_health,
}

kept {ℓ κ} :
    {A : Type ℓ} {B : Type κ} (m : Result A) (f : A → Receiver) {r : Receiver}
    (field : Receiver → B) (old : B)
    → ((a : A) → field (f a) ≡ old)
    → (do a ← m; ok (f a)) ≡ ok r
    → field r ≡ old
kept (ok a) f field old h e = let same : f a ≡ _ = cc in ap field (sym same) ∙ h a
kept (err _) f field old h e = absurd cc

taken {ℓ κ} :
    {A : Type ℓ} {B : Type κ} (m : Result A) (f : A → Receiver) {r : Receiver}
    (field : Receiver → B) (g : A → B)
    → ((a : A) → field (f a) ≡ g a)
    → (do a ← m; ok (f a)) ≡ ok r
    → (do a ← m; ok (g a)) ≡ ok (field r)
taken (ok a) f field g h e = let same : f a ≡ _ = cc in ap ok (sym (h a) ∙ ap field same)
taken (err _) f field g h e = absurd cc

ver_apart :
    (k : Kind) (store : NavigationStore) (v : MonVer)
    → place k (set_mon_ver store v) ≡ place k store
ver_apart dop_kind store v = refl
ver_apart _ store v = refl

sys_apart :
    (k : Kind) (store : NavigationStore) (v : SystemHealth)
    → place k (set_system_health store v) ≡ place k store
sys_apart dop_kind store v = refl
sys_apart _ store v = refl

-- A setter leaves the places of the other kinds.
module _ (store : NavigationStore) where
  dop_apart :
      (k : Kind) (v : DilutionOverPrecision)
      → is_kind k ubx_nav_dop ≡ false
      → place k (set_dop store v) ≡ place k store
  dop_apart dop_kind v e = absurd cc
  dop_apart _ v e = refl

  pvt_apart :
      (k : Kind) (v : PositionVelocityTime)
      → is_kind k ubx_nav_pvt ≡ false
      → place k (set_pvt store v) ≡ place k store
  pvt_apart pvt_kind v e = absurd cc
  pvt_apart _ v e = refl

  geofence_apart :
      (k : Kind) (v : GeofencingNav)
      → is_kind k ubx_nav_geofence ≡ false
      → place k (set_geofencing_nav store v) ≡ place k store
  geofence_apart geofence_kind v e = absurd cc
  geofence_apart _ v e = refl

  rf_apart :
      (k : Kind) (v : List RfBlock)
      → is_kind k ubx_mon_rf ≡ false
      → place k (set_rf_blocks store v) ≡ place k store
  rf_apart rf_kind v e = absurd cc
  rf_apart _ v e = refl

  span_apart :
      (k : Kind) (v : List RfBlockSpectrumData)
      → is_kind k ubx_mon_span ≡ false
      → place k (set_spectrum store v) ≡ place k store
  span_apart span_kind v e = absurd cc
  span_apart _ v e = refl

  satellite_apart :
      (k : Kind) (v : List SatelliteInfo)
      → is_kind k ubx_nav_sat ≡ false
      → place k (set_satellites store v) ≡ place k store
  satellite_apart satellite_kind v e = absurd cc
  satellite_apart _ v e = refl

  time_mark_apart :
      (k : Kind) (v : TimeMark)
      → is_kind k ubx_tim_tm2 ≡ false
      → place k (set_time_mark store v) ≡ place k store
  time_mark_apart time_mark_kind v e = absurd cc
  time_mark_apart _ v e = refl

-- A message of another kind leaves the place of a kind as it is.
run_msg-other :
    (k : Kind) (msg : UbxMsg) (r r' : Receiver) (frame : Bytes)
    → is_kind k msg ≡ false
    → run_msg r msg frame ≡ ok r'
    → place k r'.store ≡ place k r.store
unfolding run_msg
run_msg-other k ubx_ack_ack r r' frame other e =
    kept (run_ack r.registry frame) _ (λ x. place k x.store) (place k r.store) (λ _. refl) e
run_msg-other k ubx_ack_nak r r' frame other e =
    kept (run_nak r.registry frame) _ (λ x. place k x.store) (place k r.store) (λ _. refl) e
run_msg-other k ubx_cfg_cfg r r' frame other e =
    kept (ok frame) (λ _. r) (λ x. place k x.store) (place k r.store) (λ _. refl) e
run_msg-other k ubx_cfg_geofence r r' frame other e =
    kept (geofence_deserialize frame) _ (λ x. place k x.store) (place k r.store) (λ _. refl) e
run_msg-other k ubx_cfg_msg r r' frame other e =
    kept (msg_deserialize frame) _ (λ x. place k x.store) (place k r.store) (λ _. refl) e
run_msg-other k ubx_cfg_nav5 r r' frame other e =
    kept (nav5_deserialize frame) _ (λ x. place k x.store) (place k r.store) (λ _. refl) e
run_msg-other k ubx_cfg_prt r r' frame other e =
    kept (port_deserialize frame) _ (λ x. place k x.store) (place k r.store) (λ _. refl) e
run_msg-other k ubx_cfg_rate r r' frame other e =
    kept (rate_deserialize frame) _ (λ x. place k x.store) (place k r.store) (λ _. refl) e
run_msg-other k ubx_cfg_tp5 r r' frame other e =
    kept (tp5_deserialize frame) _ (λ x. place k x.store) (place k r.store) (λ _. refl) e
run_msg-other k ubx_cfg_valset r r' frame other e =
    kept (valset_deserialize frame) _ (λ x. place k x.store) (place k r.store) (λ _. refl) e
run_msg-other k ubx_cfg_valget r r' frame other e =
    kept (valget_deserialize frame) _ (λ x. place k x.store) (place k r.store) (λ _. refl) e
run_msg-other k ubx_nav_dop r r' frame other e =
    kept (dop_deserialize frame) _ (λ x. place k x.store) (place k r.store)
      (λ v. dop_apart r.store k v other) e
run_msg-other k ubx_nav_pvt r r' frame other e =
    kept (pvt_deserialize frame) _ (λ x. place k x.store) (place k r.store)
      (λ v. pvt_apart r.store k v other) e
run_msg-other k ubx_nav_geofence r r' frame other e =
    kept (geofencing_nav_deserialize frame) _ (λ x. place k x.store) (place k r.store)
      (λ v. geofence_apart r.store k v other) e
run_msg-other k ubx_mon_rf r r' frame other e =
    kept (rf_deserialize frame) _ (λ x. place k x.store) (place k r.store)
      (λ v. rf_apart r.store k v other) e
run_msg-other k ubx_mon_span r r' frame other e =
    kept (span_deserialize frame) _ (λ x. place k x.store) (place k r.store)
      (λ v. span_apart r.store k v other) e
run_msg-other k ubx_nav_sat r r' frame other e =
    kept (sat_deserialize frame) _ (λ x. place k x.store) (place k r.store)
      (λ v. satellite_apart r.store k v other) e
run_msg-other k ubx_tim_tm2 r r' frame other e =
    kept (time_mark_deserialize frame) _ (λ x. place k x.store) (place k r.store)
      (λ v. time_mark_apart r.store k v other) e
run_msg-other k ubx_mon_ver r r' frame other e =
    kept (ver_deserialize r.mon_ver frame) _ (λ x. place k x.store) (place k r.store)
      (ver_apart k r.store) e
run_msg-other k ubx_mon_sys r r' frame other e =
    kept (sys_deserialize r.mon_sys frame) _ (λ x. place k x.store) (place k r.store)
      (sys_apart k r.store) e

-- A message of a kind is decoded into the kind's place.
run_msg-own :
    (k : Kind) (msg : UbxMsg) (r r' : Receiver) (frame : Bytes)
    → is_kind k msg ≡ true
    → run_msg r msg frame ≡ ok r'
    → (do v ← decode k frame; ok (placed k v)) ≡ ok (place k r'.store)
unfolding run_msg
run_msg-own dop_kind ubx_nav_dop r r' frame own e =
    taken (dop_deserialize frame) _ (λ x. place dop_kind x.store) (placed dop_kind) (λ _. refl) e
run_msg-own pvt_kind ubx_nav_pvt r r' frame own e =
    taken (pvt_deserialize frame) _ (λ x. place pvt_kind x.store) (placed pvt_kind) (λ _. refl) e
run_msg-own geofence_kind ubx_nav_geofence r r' frame own e =
    taken (geofencing_nav_deserialize frame) _ (λ x. place geofence_kind x.store)
      (placed geofence_kind) (λ _. refl) e
run_msg-own rf_kind ubx_mon_rf r r' frame own e =
    taken (rf_deserialize frame) _ (λ x. place rf_kind x.store) (placed rf_kind) (λ _. refl) e
run_msg-own span_kind ubx_mon_span r r' frame own e =
    taken (span_deserialize frame) _ (λ x. place span_kind x.store) (placed span_kind) (λ _. refl) e
run_msg-own satellite_kind ubx_nav_sat r r' frame own e =
    taken (sat_deserialize frame) _ (λ x. place satellite_kind x.store) (placed satellite_kind)
      (λ _. refl) e
run_msg-own time_mark_kind ubx_tim_tm2 r r' frame own e =
    taken (time_mark_deserialize frame) _ (λ x. place time_mark_kind x.store)
      (placed time_mark_kind) (λ _. refl) e
run_msg-own _ _ r r' frame own e = absurd cc

run_translated-newest :
    (k : Kind) (o : Option UbxMsg) (r r' : Receiver) (frame : Bytes)
    → run_translated r o frame ≡ ok r'
    → (if of_kind k o then (do v ← decode k frame; ok (placed k v)) else ok (place k r.store))
      ≡ ok (place k r'.store)
run_translated-newest k none r r' frame e =
    let same : r ≡ r' = cc in ap (λ x. ok (place k x.store)) same
run_translated-newest k (some msg) r r' frame e = elim (Bool-cases (is_kind k msg)) [
  | inl own ↦ rw (own) (run_msg-own k msg r r' frame own e)
  | inr other ↦ rw (other) (ap ok (sym (run_msg-other k msg r r' frame other e)))
]

run_frame-newest :
    (k : Kind) (r r' : Receiver) (frame : Bytes)
    → run_frame r frame ≡ ok r'
    → newest k (place k r.store) frame ≡ ok (place k r'.store)
unfolding run_frame
run_frame-newest k r r' [] e = let same : r ≡ r' = cc in ap (λ x. ok (place k x.store)) same
run_frame-newest k r r' (a ∷ []) e = absurd cc
run_frame-newest k r r' (a ∷ b ∷ []) e = absurd cc
run_frame-newest k r r' (a ∷ b ∷ c ∷ []) e = absurd cc
run_frame-newest k r r' (a ∷ b ∷ c ∷ d ∷ rest) e =
    run_translated-newest k (translate (c, d)) r r' (a ∷ b ∷ c ∷ d ∷ rest) e

one_more :
    (k : Kind) (frames : List Bytes) (r' : Receiver) (round : Result Receiver)
    (found : Result (Place k))
    → ((mid : Receiver) → round ≡ ok mid → found ≡ ok (place k mid.store))
    → ((mid : Receiver)
        → run_frames mid frames ≡ ok r'
        → latest k (place k mid.store) frames ≡ ok (place k r'.store))
    → (do mid ← round; run_frames mid frames) ≡ ok r'
    → (do now ← found; latest k now frames) ≡ ok (place k r'.store)
one_more k frames r' (ok mid) found here later e = rw (here mid refl) (later mid e)
one_more k frames r' (err _) found here later e = absurd cc

-- Where all frames of a list are handled without a fault, each of seven values of the navigation
-- store (PVT, DOP, satellites, RF blocks, spectra, geofences and the time mark) is then the one
-- that the last frame of its message is read to by itself, or what it was before where there is
-- no such frame. System health and version are not covered, since a short frame leaves them as
-- they are.
pub run_frames-latest :
    (frames : List Bytes) (r r' : Receiver) (k : Kind)
    → run_frames r frames ≡ ok r'
    → latest k (place k r.store) frames ≡ ok (place k r'.store)
unfolding run_frames latest
run_frames-latest [] r r' k e = let same : r ≡ r' = cc in ap (λ x. ok (place k x.store)) same
run_frames-latest (frame ∷ frames) r r' k e =
    one_more k frames r' (run_frame r frame) (newest k (place k r.store) frame)
      (λ mid. run_frame-newest k r mid frame) (λ mid. run_frames-latest frames mid r' k) e
