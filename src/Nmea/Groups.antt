-- ===== src/Nmea/Groups.antt =====
-- The groups that src/ublox/NmeaForwarder.cpp makes of the satellites, one for each system.
use gnsshat.Base.{
  ℕ, ◌<◌, ◌≡◌, ◌≢◌, refl, sym, ap, ◌∙◌, inl, inr, false, Bool-cases, arith, List, [], ◌∷◌, ◌++◌,
  append-nil, append_assoc, ◌==◌, ==_iff, ==-refl, ltb, ltb→lt, ltb→le, if◌then◌else◌,
}
use gnsshat.Navigation.Types.{SatelliteInfo}
use gnsshat.Nmea.Satellites.{gnss_id_to_nmea_system_id, push_group, satellite_groups}

unequal : (a b : ℕ) → (a == b) ≡ false → a ≢ b
unequal a b other same = let e = (==_iff a b).1 same in absurd cc

module _ {ℓ} {A : Type ℓ} where
  -- The values of one group, none where it is not there.
  abbrev pub group : ℕ → List (ℕ × List A) → List A
  group id [] = []
  group id ((key, values) ∷ groups) =
      let later = group id groups in if id == key then values else later

  abbrev pub AreAbove : ℕ → List (ℕ × List A) → Type 0
  AreAbove id [] = Unit {0}
  AreAbove id ((key, values) ∷ groups) = (id < key) × AreAbove id groups

  -- The keys ascend, so that none is there twice.
  abbrev pub AreAscending : List (ℕ × List A) → Type 0
  AreAscending [] = Unit {0}
  AreAscending ((key, values) ∷ groups) = AreAbove key groups × AreAscending groups

  above_lower :
      (low high : ℕ) (groups : List (ℕ × List A))
      → low < high
      → AreAbove high groups
      → AreAbove low groups
  above_lower low high [] less h = tt
  above_lower low high ((key, values) ∷ groups) less (h, hs) =
      (omega arith, above_lower low high groups less hs)

  above_missing : (id : ℕ) (groups : List (ℕ × List A)) → AreAbove id groups → group id groups ≡ []
  above_missing id [] h = refl
  above_missing id ((key, values) ∷ groups) (h, hs) = elim (Bool-cases (id == key)) [
    | inl same ↦ absurd (omega (arith, h, (==_iff id key).0 same))
    | inr other ↦ rw other (above_missing id groups hs)
  ]

  above_push :
      (low id : ℕ) (value : A) (groups : List (ℕ × List A))
      → low < id
      → AreAbove low groups
      → AreAbove low (push_group id value groups)
  unfolding push_group
  above_push low id value [] less h = (less, tt)
  above_push low id value ((key, values) ∷ groups) less (h, hs) = elim (Bool-cases (ltb id key)) [
    | inl before ↦ rw before (less, (h, hs))
    | inr behind ↦ elim (Bool-cases (id == key)) [
      | inl same ↦ rw (behind, same) (h, hs)
      | inr other ↦ rw (behind, other) (h, above_push low id value groups less hs)
    ]
  ]

  push_group-AreAscending :
      (id : ℕ) (value : A) (groups : List (ℕ × List A))
      → AreAscending groups
      → AreAscending (push_group id value groups)
  unfolding push_group
  push_group-AreAscending id value [] h = (tt, tt)
  push_group-AreAscending id value ((key, values) ∷ groups) (h, hs) =
      elim (Bool-cases (ltb id key)) [
        | inl before ↦
            let less = ltb→lt id key before in
            rw before ((less, above_lower id key groups less h), (h, hs))
        | inr behind ↦ elim (Bool-cases (id == key)) [
          | inl same ↦ rw (behind, same) (h, hs)
          | inr other ↦
              let less : key < id = omega (arith, ltb→le id key behind, unequal id key other) in
              rw (behind, other)
                (above_push key id value groups less h, push_group-AreAscending id value groups hs)
        ]
      ]

  -- A push puts the value at the end of its group, and leaves the others.
  push_group_here :
      (id : ℕ) (value : A) (groups : List (ℕ × List A))
      → AreAscending groups
      → group id (push_group id value groups) ≡ group id groups ++ (value ∷ [])
  unfolding push_group
  push_group_here id value [] h = rw (==-refl id) refl
  push_group_here id value ((key, values) ∷ groups) (h, hs) = elim (Bool-cases (ltb id key)) [
    | inl before ↦
        let less = ltb→lt id key before in
        let gone : group id ((key, values) ∷ groups) ≡ [] =
          above_missing id ((key, values) ∷ groups) (less, above_lower id key groups less h) in
        rw (before, ==-refl id) (sym (ap (λ found. found ++ value ∷ []) gone))
    | inr behind ↦ elim (Bool-cases (id == key)) [
      | inl same ↦ rw (behind, same) (rw same refl)
      | inr other ↦ rw (behind, other) (rw other (push_group_here id value groups hs))
    ]
  ]

  push_group_elsewhere :
      (id key : ℕ) (value : A) (groups : List (ℕ × List A))
      → (id == key) ≡ false
      → group id (push_group key value groups) ≡ group id groups
  unfolding push_group
  push_group_elsewhere id key value [] other = rw other refl
  push_group_elsewhere id key value ((k, values) ∷ groups) other = elim (Bool-cases (ltb key k)) [
    | inl before ↦ rw (before, other) refl
    | inr behind ↦ elim (Bool-cases (key == k)) [
      | inl same ↦
          let e : key ≡ k = (==_iff key k).0 same in
          let apart : (id == k) ≡ false = ap (λ n. id == n) (sym e) ∙ other in
          rw (behind, same, apart) refl
      | inr apart ↦
          rw (behind, apart)
            (ap (λ later. if id == k then values else later)
              (push_group_elsewhere id key value groups other))
    ]
  ]

-- The satellites of the systems with this number, in order. IMES is left out.
abbrev pub of_system : ℕ → List SatelliteInfo → List SatelliteInfo
of_system id [] = []
of_system id (sat ∷ sats) =
    let later = of_system id sats in
    if sat.gnss_id == 4
    then later
    else if id == gnss_id_to_nmea_system_id sat.gnss_id
    then sat ∷ later
    else later

satellite_groups_from :
    (sats : List SatelliteInfo) (groups : List (ℕ × List SatelliteInfo))
    → AreAscending groups
    → AreAscending (satellite_groups sats groups)
      × ((id : ℕ) → group id (satellite_groups sats groups) ≡ group id groups ++ of_system id sats)
unfolding satellite_groups
satellite_groups_from [] groups h = (h, (λ id. sym (append-nil (group id groups))))
satellite_groups_from (sat ∷ sats) groups h =
    let key = gnss_id_to_nmea_system_id sat.gnss_id in
    let (ascending, found) =
      satellite_groups_from sats (push_group key sat groups)
        (push_group-AreAscending key sat groups h) in
    elim (Bool-cases (sat.gnss_id == 4)) [
      | inl imes ↦ rw imes (satellite_groups_from sats groups h)
      | inr other ↦ rw other (
        ascending,
        (λ id. elim (Bool-cases (id == key)) [
          | inl same ↦
              let e : id ≡ key = (==_iff id key).0 same in
              rw same (
                found id
                ∙ ap (λ front. front ++ of_system id sats)
                    (ap (λ k. group id (push_group k sat groups)) (sym e)
                      ∙ push_group_here id sat groups h)
                ∙ append_assoc (group id groups) (sat ∷ []) (of_system id sats))
          | inr apart ↦ rw apart (
              found id
              ∙ ap (λ front. front ++ of_system id sats)
                  (push_group_elsewhere id key sat groups apart))
        ]),
      )
    ]

-- There is one group for each system, in the order of their numbers, and it has the satellites of
-- this system, in order.
pub satellite_groups_lem :
    (sats : List SatelliteInfo)
    → AreAscending (satellite_groups sats [])
      × ((id : ℕ) → group id (satellite_groups sats []) ≡ of_system id sats)
satellite_groups_lem sats = satellite_groups_from sats [] tt
