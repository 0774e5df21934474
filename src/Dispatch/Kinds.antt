-- ===== src/Dispatch/Kinds.antt =====
-- The values of src/ublox/NavigationStore.cpp that a message is read into without regard to what
-- came before, and what a list of frames makes of each.
use gnsshat.Base.{
  Bool, true, false, List, [], ◌∷◌, Option, none, some, Bytes, Result, ok, ◌>>=◌, if◌then◌else◌,
}
use gnsshat.Dispatch.{
  UbxMsg, translate, ubx_mon_rf, ubx_nav_dop, ubx_nav_geofence, ubx_nav_pvt, ubx_nav_sat,
  ubx_tim_tm2, ubx_mon_span,
}
use gnsshat.Navigation.Types.{
  PositionVelocityTime, DilutionOverPrecision, SatelliteInfo, RfBlock, RfBlockSpectrumData,
  TimeMark, GeofencingNav,
}
use gnsshat.Navigation.Position.{pvt_deserialize, dop_deserialize, time_mark_deserialize}
use gnsshat.Navigation.Satellites.{sat_deserialize, geofencing_nav_deserialize}
use gnsshat.Navigation.Monitor.{rf_deserialize, span_deserialize}
use gnsshat.Navigation.Store.{NavigationStore}

-- The kinds of value, each with its type, its place in the store and its message.
pub data Kind : Type 0 where
  dop_kind : Kind
  pvt_kind : Kind
  geofence_kind : Kind
  rf_kind : Kind
  span_kind : Kind
  satellite_kind : Kind
  time_mark_kind : Kind

abbrev pub Value : Kind → Type 0
Value dop_kind = DilutionOverPrecision
Value pvt_kind = PositionVelocityTime
Value geofence_kind = GeofencingNav
Value rf_kind = List RfBlock
Value span_kind = List RfBlockSpectrumData
Value satellite_kind = List SatelliteInfo
Value time_mark_kind = TimeMark

-- The place of a time mark is empty before the first one.
abbrev pub Place : Kind → Type 0
Place time_mark_kind = Option TimeMark
Place dop_kind = DilutionOverPrecision
Place pvt_kind = PositionVelocityTime
Place geofence_kind = GeofencingNav
Place rf_kind = List RfBlock
Place span_kind = List RfBlockSpectrumData
Place satellite_kind = List SatelliteInfo

abbrev pub place : (k : Kind) → NavigationStore → Place k
place dop_kind store = store.dop
place pvt_kind store = store.pvt
place geofence_kind store = store.geofencing_nav
place rf_kind store = store.rf_blocks
place span_kind store = store.rf_blocks_spectrum_data
place satellite_kind store = store.satellites
place time_mark_kind store = store.time_mark

abbrev pub placed : (k : Kind) → Value k → Place k
placed dop_kind v = v
placed pvt_kind v = v
placed geofence_kind v = v
placed rf_kind v = v
placed span_kind v = v
placed satellite_kind v = v
placed time_mark_kind v = some v

abbrev pub decode : (k : Kind) → Bytes → Result (Value k)
decode dop_kind frame = dop_deserialize frame
decode pvt_kind frame = pvt_deserialize frame
decode geofence_kind frame = geofencing_nav_deserialize frame
decode rf_kind frame = rf_deserialize frame
decode span_kind frame = span_deserialize frame
decode satellite_kind frame = sat_deserialize frame
decode time_mark_kind frame = time_mark_deserialize frame

abbrev pub is_kind : Kind → UbxMsg → Bool
is_kind dop_kind ubx_nav_dop = true
is_kind pvt_kind ubx_nav_pvt = true
is_kind geofence_kind ubx_nav_geofence = true
is_kind rf_kind ubx_mon_rf = true
is_kind span_kind ubx_mon_span = true
is_kind satellite_kind ubx_nav_sat = true
is_kind time_mark_kind ubx_tim_tm2 = true
is_kind _ _ = false

-- The value of a kind after a list of frames, by the frames of this kind alone.
abbrev pub of_kind : Kind → Option UbxMsg → Bool
of_kind k none = false
of_kind k (some msg) = is_kind k msg

abbrev pub newest : (k : Kind) → Place k → Bytes → Result (Place k)
newest k old (a ∷ b ∷ class_id ∷ msg_id ∷ rest) =
    if of_kind k (translate (class_id, msg_id))
    then (do v ← decode k (a ∷ b ∷ class_id ∷ msg_id ∷ rest); ok (placed k v))
    else ok old
newest k old _ = ok old

unfoldable pub latest : (k : Kind) → Place k → List Bytes → Result (Place k)
latest k old [] = ok old
latest k old (frame ∷ frames) = do now ← newest k old frame; latest k now frames
