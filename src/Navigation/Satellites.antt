-- ===== src/Navigation/Satellites.antt =====
-- `deserialize` of src/ublox/ubxmsg/UBX_NAV_SAT.hpp and UBX_NAV_GEOFENCE.hpp.
use gnsshat.Base.{
  ℕ, zero, suc, ◌+◌, ◌*◌, ◌/◌, ◌%◌, List, [], ◌∷◌, Bytes, Result, ok, err, out_of_bounds, ◌>>=◌,
  ◌==◌, ltb, if◌then◌else◌, length, read_at, read_le,
}
use gnsshat.Navigation.Types.{get_bit, signed, read_int, SatelliteInfo, GeofencingNav}

-- The block of one satellite.
unfoldable pub read_satellite : Bytes → ℕ → Result SatelliteInfo
read_satellite frame offset = do
  gnss_id ← read_at frame (offset + 0)
  sv_id ← read_at frame (offset + 1)
  cno ← read_at frame (offset + 2)
  elevation ← read_at frame (offset + 3)
  azimuth ← read_int 2 16 frame (offset + 4)
  flags ← read_le 4 frame (offset + 8)
  ok (record {
    gnss_id = gnss_id;
    sv_id = sv_id;
    cno = cno;
    elevation = signed 8 elevation;
    azimuth = azimuth;
    quality = flags % 8;
    used_in_fix = get_bit flags 3;
    healthy = flags / 16 % 4 == 1;
    diff_corr = get_bit flags 6;
    eph_avail = get_bit flags 8;
    alm_avail = get_bit flags 9;
  })

-- The loop, with the number of satellites that are left; it breaks at a block that does not fit.
unfoldable pub read_satellites : ℕ → Bytes → ℕ → Result (List SatelliteInfo)
read_satellites zero frame i = ok []
read_satellites (suc left) frame i =
    let later = read_satellites left frame (i + 1) in
    if ltb (length frame) (14 + i * 12 + 12)
    then ok []
    else (do sat ← read_satellite frame (14 + i * 12); sats ← later; ok (sat ∷ sats))

unfoldable pub sat_deserialize : Bytes → Result (List SatelliteInfo)
sat_deserialize frame = do num_svs ← read_at frame 11; read_satellites num_svs frame 0

-- `geofencesStatus[i] = value` on an array, undefined behind its end.
abbrev pub store_at : List ℕ → ℕ → ℕ → Result (List ℕ)
store_at [] i value = err out_of_bounds
store_at (x ∷ xs) zero value = ok (value ∷ xs)
store_at (x ∷ xs) (suc i) value = do later ← store_at xs i value; ok (x ∷ later)

unfoldable pub read_statuses : ℕ → Bytes → ℕ → List ℕ → Result (List ℕ)
read_statuses zero frame i statuses = ok statuses
read_statuses (suc left) frame i statuses = do
  status ← read_at frame (14 + 2 * i)
  stored ← store_at statuses i status
  read_statuses left frame (i + 1) stored

-- The part for `EGeofencingStatus::Active`.
abbrev pub read_active : Bytes → ℕ → ℕ → Result GeofencingNav
read_active frame i_tow status = do
  number ← read_at frame 12
  combined ← read_at frame 13
  statuses ← read_statuses number frame 0 (0 ∷ 0 ∷ 0 ∷ 0 ∷ [])
  ok (record {
    i_tow = i_tow;
    geofencing_status = status;
    number_of_geofences = number;
    combined_state = combined;
    geofences_status = statuses;
  })

unfoldable pub geofencing_nav_deserialize : Bytes → Result GeofencingNav
geofencing_nav_deserialize frame = do
  i_tow ← read_le 4 frame 6
  status ← read_at frame 11
  if status == 1
      then read_active frame i_tow status
      else ok (record {
        i_tow = i_tow;
        geofencing_status = status;
        number_of_geofences = 0;
        combined_state = 0;
        geofences_status = 0 ∷ 0 ∷ 0 ∷ 0 ∷ [];
      })
