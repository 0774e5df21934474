-- ===== src/Nmea/Stars.antt =====
-- The texts that src/ublox/NmeaForwarder.cpp puts into a GSV sentence have no star.
use gnsshat.Base.{
  ℕ, zero, suc, ◌+◌, ◌-◌, ◌/◌, ◌%◌, ◌≡◌, refl, Bool, true, false, ◌||◌, ==_iff, ◌≢◌, inl, inr,
  Bool-cases, arith, List, [], ◌∷◌, ◌++◌, All, All-append, length, ◌==◌, ltb, if◌then◌else◌, ℤ, pos,
  negsuc,
}
use gnsshat.Navigation.Types.{SatelliteInfo}
use gnsshat.Nmea.Text.{Text, text, digits, decimal, decimal_int, zeros, padded}
use gnsshat.Nmea.Satellites.{satellite_to_nmea_prn, gnss_id_to_gsv_talker_id, talker_of, gsv_fields}

-- No character is the star that ends a sentence.
abbrev pub IsStarless : Text → Type 0
IsStarless = All (λ c. c ≢ 42)

digits-IsStarless : (fuel n : ℕ) → IsStarless (digits fuel n)
unfolding digits
digits-IsStarless zero n = tt
digits-IsStarless (suc fuel) n = elim (Bool-cases (ltb n 10)) [
  | inl one ↦ rw (one) ((λ e. absurd (omega arith)), tt)
  | inr more ↦ rw (more) (
      All-append (λ c. c ≢ 42) (digits fuel (n / 10)) ((48 + n % 10) ∷ [])
        (digits-IsStarless fuel (n / 10)) ((λ e. absurd (omega arith)), tt))
]

pub decimal-IsStarless : (n : ℕ) → IsStarless (decimal n)
unfolding decimal
decimal-IsStarless n = digits-IsStarless (suc n) n

decimal_int-IsStarless : (v : ℤ) → IsStarless (decimal_int v)
decimal_int-IsStarless (pos n) = decimal-IsStarless n
decimal_int-IsStarless (negsuc n) = ((λ e. absurd (omega arith)), decimal-IsStarless (n + 1))

zeros-IsStarless : (n : ℕ) → IsStarless (zeros n)
zeros-IsStarless zero = tt
zeros-IsStarless (suc n) = ((λ e. absurd (omega arith)), zeros-IsStarless n)

module _ (xs ys : Text) where
  pub behind : IsStarless xs → IsStarless ys → IsStarless (xs ++ ys)
  behind h k = All-append (λ c. c ≢ 42) xs ys h k

  pub behind_comma : IsStarless xs → IsStarless ys → IsStarless (44 ∷ (xs ++ ys))
  behind_comma h k = ((λ e. absurd (omega arith)), behind h k)

padded-IsStarless : (width : ℕ) (xs : Text) → IsStarless xs → IsStarless (padded width xs)
padded-IsStarless width xs h =
    behind (zeros (width - length xs)) xs (zeros-IsStarless (width - length xs)) h

strength-IsStarless : (cno : ℕ) → IsStarless (if ltb 0 cno then padded 2 (decimal cno) else [])
strength-IsStarless cno = elim (Bool-cases (ltb 0 cno)) [
  | inl some ↦ rw (some) (padded-IsStarless 2 (decimal cno) (decimal-IsStarless cno))
  | inr none ↦ rw (none) tt
]

pub gsv_fields-IsStarless : (sats : List SatelliteInfo) → IsStarless (gsv_fields sats)
unfolding gsv_fields
gsv_fields-IsStarless [] = tt
gsv_fields-IsStarless (sat ∷ sats) =
    let prn = satellite_to_nmea_prn sat in
    behind_comma (padded 2 (decimal prn)) _
      (padded-IsStarless 2 (decimal prn) (decimal-IsStarless prn))
      (behind_comma (decimal_int sat.elevation) _ (decimal_int-IsStarless sat.elevation) (
        behind_comma (padded 3 (decimal_int sat.azimuth)) _
          (padded-IsStarless 3 (decimal_int sat.azimuth) (decimal_int-IsStarless sat.azimuth))
          (behind_comma (if ltb 0 sat.cno then padded 2 (decimal sat.cno) else []) _
            (strength-IsStarless sat.cno) (gsv_fields-IsStarless sats))))

-- For a literal, the test computes.
abbrev pub has_star : Text → Bool
has_star [] = false
has_star (c ∷ rest) = (c == 42) || has_star rest

pub literal-IsStarless : (xs : Text) → has_star xs ≡ false → IsStarless xs
literal-IsStarless [] e = tt
literal-IsStarless (c ∷ rest) e = elim (Bool-cases (c == 42)) [
  | inl star ↦ absurd (let bad = rw (star) at e in cc)
  | inr other ↦
      ((λ same. let star = (==_iff c 42).1 same in cc), literal-IsStarless rest (rw (other) at e))
]

chosen :
    (b : Bool) (xs ys : Text) → IsStarless xs → IsStarless ys → IsStarless (if b then xs else ys)
chosen true xs ys h k = h
chosen false xs ys h k = k

talker_id-IsStarless : (id : ℕ) → IsStarless (gnss_id_to_gsv_talker_id id)
talker_id-IsStarless id = chosen (id == 6) (text "GL") _ (literal-IsStarless (text "GL") refl) (
    chosen (id == 2) (text "GA") _ (literal-IsStarless (text "GA") refl) (
      chosen (id == 3) (text "GB") _ (literal-IsStarless (text "GB") refl) (
        chosen (id == 5) (text "GQ") (text "GP") (literal-IsStarless (text "GQ") refl)
          (literal-IsStarless (text "GP") refl))))

pub talker_of-IsStarless : (sats : List SatelliteInfo) → IsStarless (talker_of sats)
talker_of-IsStarless [] = tt
talker_of-IsStarless (sat ∷ sats) = talker_id-IsStarless sat.gnss_id
