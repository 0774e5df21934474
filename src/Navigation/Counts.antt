-- ===== src/Navigation/Counts.antt =====
-- The messages of src/ublox/ubxmsg that hold as many blocks as a byte of the frame says:
-- UBX_NAV_SAT.hpp stops where the frame does, the other three trust the byte.
use gnsshat.Base.{
  ℕ, zero, suc, ◌+◌, ◌-◌, ◌*◌, ◌/◌, ◌≤◌, ◌<◌, ◌↔◌, ◌⊎◌, inl, inr, ◌≡◌, refl, sym, ap, ◌∙◌, min,
  arith, ltb, ltb→lt, ltb→le, List, [], ◌∷◌, length, Bytes, Result, ok, err, out_of_bounds, ◌>>=◌,
  HasValue-bind, Bool-cases, HasValue, HasValue-ok, Needs, Needs-bind, Needs-read_at, there,
  read_at, read_at_ok, read_le_ok, get_elem?-none,
}
use gnsshat.Navigation.Types.{SatelliteInfo}
use gnsshat.Navigation.Satellites.{
  read_satellite, read_satellites, sat_deserialize, store_at, read_statuses,
  geofencing_nav_deserialize,
}
use gnsshat.Navigation.Monitor.{
  read_blocks, read_rf_block, read_spectrum, rf_deserialize, span_deserialize,
}
use gnsshat.Navigation.Bounds.{Needs-read_satellite, Needs-read_rf_block, Needs-read_spectrum}

abbrev blocks_in : Bytes → ℕ
blocks_in frame = (length frame - 14) / 12

read_satellites_count :
    (left : ℕ) (frame : Bytes) (i : ℕ)
    → i ≤ blocks_in frame
    → (sats : List SatelliteInfo) × (read_satellites left frame i ≡ ok sats)
      × (length sats ≡ min left (blocks_in frame - i))
unfolding read_satellites
read_satellites_count zero frame i h = ([], refl, omega arith)
read_satellites_count (suc left) frame i h =
    elim (Bool-cases (ltb (length frame) (14 + i * 12 + 12))) [
      | inl short ↦
          let less = ltb→lt (length frame) (14 + i * 12 + 12) short in
          rw short ([], refl, omega arith)
      | inr fits ↦
          let room = ltb→le (length frame) (14 + i * 12 + 12) fits in
          let (sat, e) =
            HasValue-ok (read_satellite frame (14 + i * 12))
              ((Needs-read_satellite frame (14 + i * 12)).1 room) in
          let (sats, f, count) = read_satellites_count left frame (i + 1) (omega arith) in
          rw (fits, e, f) (sat ∷ sats, refl, omega arith)
    ]

-- A NAV-SAT frame of fewer than twelve bytes is read behind its end, where the number of
-- satellites would stand; any longer one is read without a fault, whatever number it announces,
-- and as many satellites are listed as are announced and as fit the frame.
pub sat_deserialize_count :
    (frame : Bytes)
    → ((length frame < 12) × (sat_deserialize frame ≡ err out_of_bounds))
      ⊎ ((num_svs : ℕ) × (sats : List SatelliteInfo) × (read_at frame 11 ≡ ok num_svs)
          × (sat_deserialize frame ≡ ok sats)
          × (length sats ≡ min num_svs ((length frame - 14) / 12)))
unfolding sat_deserialize
sat_deserialize_count frame = elim (Bool-cases (ltb (length frame) 12)) [
  | inl short ↦
      let less = ltb→lt (length frame) 12 short in
      inl (less, rw (get_elem?-none frame 11 (omega arith)) refl)
  | inr long ↦
      let (num_svs, e) = read_at_ok frame 11 (ltb→le (length frame) 12 long) in
      let (sats, f, count) = read_satellites_count num_svs frame 0 (omega arith) in
      inr (num_svs, sats, e, (rw (e, f) refl), (omega arith))
]

module _ {ℓ} {A : Type ℓ} (read : Bytes → ℕ → Result A) (frame : Bytes) (bound : ℕ → ℕ) where
  -- The blocks from the one at `i` on, where the frame reaches to the end of the one before.
  Needs-read_blocks :
      ((i n : ℕ) → bound i ≤ bound (i + n))
      → ((i : ℕ) → Needs (bound (i + 1)) (length frame) (read frame i))
      → (n i : ℕ) → bound i ≤ length frame
      → Needs (bound (i + n)) (length frame) (read_blocks read n frame i)
  unfolding read_blocks
  Needs-read_blocks mono needs zero i h = let same : i + 0 ≡ i = omega arith in rw same (there h)
  Needs-read_blocks mono needs (suc n) i h =
      let same : i + suc n ≡ i + 1 + n = omega arith in
      rw same (
        Needs-bind (read frame i) _ (needs i) (mono (i + 1) n) (λ block fits.
          Needs-bind (read_blocks read n frame (i + 1)) _
            (Needs-read_blocks mono needs n (i + 1) fits) (omega arith) (λ blocks fit. there fit)))

Needs-same {ℓ} :
    {A : Type ℓ} (r : Result A) {a b size : ℕ} → a ≡ b → Needs a size r → Needs b size r
Needs-same r e h = rw (← e) h

abbrev rf_bound : ℕ → ℕ
rf_bound i = 8 + i * 24

abbrev span_bound : ℕ → ℕ
span_bound i = 7 + i * 272

-- A frame that announces n blocks in its byte 7 is read without a fault as MON-RF exactly from 8
-- + 24 n bytes on, and as MON-SPAN exactly from 7 + 272 n bytes on.
pub blocks_deserialize_bounds :
    (frame : Bytes) (n : ℕ)
    → read_at frame 7 ≡ ok n
    → (HasValue (rf_deserialize frame) ↔ (8 + n * 24 ≤ length frame))
      × (HasValue (span_deserialize frame) ↔ (7 + n * 272 ≤ length frame))
unfolding rf_deserialize span_deserialize
blocks_deserialize_bounds frame n e =
    let header : 8 ≤ length frame = (Needs-read_at frame 7).0 (rw e tt) in
    rw e (
      Needs-same (read_blocks read_rf_block n frame 0) (omega arith) (
          Needs-read_blocks read_rf_block frame rf_bound (λ i k. omega arith)
            (λ i. Needs-same (read_rf_block frame i) (omega arith) (Needs-read_rf_block frame i)) n
            0 header),
      Needs-same (read_blocks read_spectrum n frame 0) (omega arith) (
          Needs-read_blocks read_spectrum frame span_bound (λ i k. omega arith)
            (λ i. Needs-same (read_spectrum frame i) (omega arith) (Needs-read_spectrum frame i)) n
            0 (omega arith)),
    )

-- The array of states: a place that it has.
store_at_lem :
    (statuses : List ℕ) (i value : ℕ)
    → (i < length statuses
        → (stored : List ℕ) × (store_at statuses i value ≡ ok stored)
          × (length stored ≡ length statuses))
      × (length statuses ≤ i → store_at statuses i value ≡ err out_of_bounds)
store_at_lem [] i value = ((λ h. absurd (omega arith)), (λ _. refl))
store_at_lem (x ∷ xs) zero value = ((λ _. (value ∷ xs, refl, refl)), (λ h. absurd (omega arith)))
store_at_lem (x ∷ xs) (suc i) value =
    let (inside, outside) = store_at_lem xs i value in
    (
      (λ h. let (stored, e, same) = inside (omega arith) in rw e (x ∷ stored, refl, ap suc same)),
      (λ h. rw (outside (omega arith)) refl),
    )

kept :
    {x : ℕ} {r : Result (List ℕ)} {later stored : List ℕ}
    → (do rest ← r; ok (x ∷ rest)) ≡ ok stored
    → r ≡ ok later
    → x ∷ later ≡ stored
kept {r = ok rest} e f = cc
kept {r = err _} e f = absurd cc

stored_within :
    (statuses : List ℕ) (i value : ℕ) (stored : List ℕ)
    → store_at statuses i value ≡ ok stored
    → (i < length statuses) × (length stored ≡ length statuses)
stored_within [] i value stored e = absurd cc
stored_within (x ∷ xs) zero value stored e =
    let same : value ∷ xs ≡ stored = cc in (omega arith, ap length (sym same))
stored_within (x ∷ xs) (suc i) value stored e =
    let (later, f, v) = HasValue-bind (store_at xs i value) (λ rest. ok (x ∷ rest)) (rw e tt) in
    let (less, size) = stored_within xs i value later f in
    let same : x ∷ later ≡ stored = kept e f in (omega arith, ap length (sym same) ∙ ap suc size)

statuses_read :
    (n i : ℕ) (frame : Bytes) (statuses : List ℕ)
    → 13 + 2 * (i + n) ≤ length frame
    → i + n ≤ length statuses
    → HasValue (read_statuses n frame i statuses)
unfolding read_statuses
statuses_read zero i frame statuses h k = tt
statuses_read (suc n) i frame statuses h k =
    let (status, e) = read_at_ok frame (14 + 2 * i) (omega arith) in
    let (stored, f, same) = (store_at_lem statuses i status).0 (omega arith) in
    rw (e, f) (statuses_read n (i + 1) frame stored (omega arith) (omega arith))

statuses_limits :
    (n i : ℕ) (frame : Bytes) (statuses : List ℕ)
    → 13 + 2 * i ≤ length frame
    → i ≤ length statuses
    → HasValue (read_statuses n frame i statuses)
    → (13 + 2 * (i + n) ≤ length frame) × (i + n ≤ length statuses)
unfolding read_statuses
statuses_limits zero i frame statuses h k v = (omega arith, omega arith)
statuses_limits (suc n) i frame statuses h k v =
    let (status, e, v') = HasValue-bind (read_at frame (14 + 2 * i)) _ v in
    let (stored, f, v'') = HasValue-bind (store_at statuses i status) _ v' in
    let fits = (Needs-read_at frame (14 + 2 * i)).0 (rw e tt) in
    let (place, same) = stored_within statuses i status stored f in
    let (size, room) = statuses_limits n (i + 1) frame stored (omega arith) (omega arith) v'' in
    (omega arith, omega arith)

-- A NAV-GEOFENCE frame that says that fences are active, and announces a number of states, is read
-- without a fault exactly when it has the byte 13 of the combined state, holds the states it
-- announces, and these are at most four.
pub geofencing_nav_deserialize_bounds :
    (frame : Bytes) (n : ℕ)
    → read_at frame 11 ≡ ok 1
    → read_at frame 12 ≡ ok n
    → HasValue (geofencing_nav_deserialize frame)
      ↔ ((14 ≤ length frame) × (13 + 2 * n ≤ length frame) × (n ≤ 4))
unfolding geofencing_nav_deserialize
geofencing_nav_deserialize_bounds frame n active number =
    let header : 13 ≤ length frame = (Needs-read_at frame 12).0 (rw number tt) in
    let (i_tow, e) = read_le_ok 4 frame 6 (omega arith) in
    let blank : List ℕ = 0 ∷ 0 ∷ 0 ∷ 0 ∷ [] in
    rw (e, active, number)
      (
        (λ v.
            let (combined, f, v') = HasValue-bind (read_at frame 13) _ v in
            let room = (Needs-read_at frame 13).0 (rw f tt) in
            let (statuses, g, _) = HasValue-bind (read_statuses n frame 0 blank) _ v' in
            let (size, few) =
              statuses_limits n 0 frame blank (omega arith) (omega arith) (rw g tt) in
            (room, omega arith, omega arith)),
        (λ (room, fits, few).
            let (combined, f) = read_at_ok frame 13 room in
            let (statuses, g) =
              HasValue-ok (read_statuses n frame 0 blank)
                (statuses_read n 0 frame blank (omega arith) (omega arith)) in
            rw (f, g) tt),
      )
