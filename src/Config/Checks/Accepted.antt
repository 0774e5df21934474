-- ===== src/Config/Checks/Accepted.antt =====
-- What the checks of src/ublox/GnssConfig.cpp accept.
use gnsshat.Base.{
  ℕ, ◌≡◌, refl, ◌≤◌, ◌↔◌, Bool, true, false, Option, none, some, ℤ, pos, negsuc, arith,
  if◌then◌else◌,
}
use gnsshat.Config.{NavigationFilters}
use gnsshat.Config.Checks.{
  check_navigation_filters, refuses_svs, inverted, exceeds, refuses_elevation, refuses_fix_mode,
}

-- A value, when there is one, satisfies a predicate.
abbrev pub IfGiven {ℓ} : {A : Type ℓ} → (A → Type 0) → Option A → Type 0
IfGiven P none = Unit
IfGiven P (some a) = P a

-- From -90 to 90.
abbrev pub IsElevation : ℤ → Type 0
IsElevation (pos n) = n ≤ 90
IsElevation (negsuc n) = n ≤ 89

abbrev pub IsOrdered : Option ℕ → Option ℕ → Type 0
IsOrdered (some least) (some most) = least ≤ most
IsOrdered _ _ = Unit

pub record AreAccepted (filters : NavigationFilters) : Type 0 where
  pub min_svs_range : IfGiven (λ v. (3 ≤ v) × (v ≤ 32)) filters.min_svs
  pub max_svs_range : IfGiven (λ v. (3 ≤ v) × (v ≤ 32)) filters.max_svs
  pub ordered : IsOrdered filters.min_svs filters.max_svs
  pub min_cno_range : IfGiven (λ v. v ≤ 63) filters.min_cno
  pub cno_thrs_range : IfGiven (λ v. v ≤ 63) filters.cno_thrs
  pub min_elev_range : IfGiven IsElevation filters.min_elev
  pub fix_mode_range : IfGiven (λ v. (1 ≤ v) × (v ≤ 3)) filters.fix_mode
  pub pdop_mask_range : IfGiven (λ v. v ≤ 9999) filters.pdop_mask
  pub tdop_mask_range : IfGiven (λ v. v ≤ 9999) filters.tdop_mask

svs_lem : (o : Option ℕ) → (refuses_svs o ≡ false) ↔ IfGiven (λ v. (3 ≤ v) × (v ≤ 32)) o
svs_lem none = ((λ _. tt), (λ _. refl))
svs_lem (some v) = ground arith

exceeds_lem : (bound : ℕ) (o : Option ℕ) → (exceeds bound o ≡ false) ↔ IfGiven (λ v. v ≤ bound) o
exceeds_lem bound none = ((λ _. tt), (λ _. refl))
exceeds_lem bound (some v) = ground arith

inverted_lem : (a b : Option ℕ) → (inverted a b ≡ false) ↔ IsOrdered a b
inverted_lem none b = ((λ _. tt), (λ _. refl))
inverted_lem (some a) none = ((λ _. tt), (λ _. refl))
inverted_lem (some a) (some b) = ground arith

elevation_lem : (o : Option ℤ) → (refuses_elevation o ≡ false) ↔ IfGiven IsElevation o
elevation_lem none = ((λ _. tt), (λ _. refl))
elevation_lem (some (pos n)) = ground arith
elevation_lem (some (negsuc n)) = ground arith

fix_mode_lem : (o : Option ℕ) → (refuses_fix_mode o ≡ false) ↔ IfGiven (λ v. (1 ≤ v) × (v ≤ 3)) o
fix_mode_lem none = ((λ _. tt), (λ _. refl))
fix_mode_lem (some v) = ground arith

-- A check that refuses on `b` and goes on with `c` otherwise.
goes_on {ℓ κ} :
    {P : Type ℓ} {Q : Type κ} (b c : Bool)
    → (b ≡ false) ↔ P
    → (c ≡ true) ↔ Q
    → ((if b then false else c) ≡ true) ↔ (P × Q)
goes_on true c (f, f') (g, g') = ((λ e. absurd cc), (λ (p, q). absurd (let e = f' p in cc)))
goes_on false c (f, f') (g, g') = ((λ e. (f refl, g e)), (λ (p, q). g' q))

-- The checks in their order.
in_order :
    (filters : NavigationFilters)
    → (check_navigation_filters (some filters) ≡ true) ↔ (
        IfGiven (λ v. (3 ≤ v) × (v ≤ 32)) filters.min_svs
        × (IfGiven (λ v. (3 ≤ v) × (v ≤ 32)) filters.max_svs
            × (IsOrdered filters.min_svs filters.max_svs
                × (IfGiven (λ v. v ≤ 63) filters.min_cno
                    × (IfGiven (λ v. v ≤ 63) filters.cno_thrs
                        × (IfGiven IsElevation filters.min_elev
                            × (IfGiven (λ v. (1 ≤ v) × (v ≤ 3)) filters.fix_mode
                                × (IfGiven (λ v. v ≤ 9999) filters.pdop_mask
                                    × (IfGiven (λ v. v ≤ 9999) filters.tdop_mask
                                        × (true ≡ true))))))))))
unfolding check_navigation_filters
in_order filters = goes_on (refuses_svs filters.min_svs) _ (svs_lem filters.min_svs) (
    goes_on (refuses_svs filters.max_svs) _ (svs_lem filters.max_svs) (
      goes_on (inverted filters.min_svs filters.max_svs) _
        (inverted_lem filters.min_svs filters.max_svs)
        (goes_on (exceeds 63 filters.min_cno) _ (exceeds_lem 63 filters.min_cno) (
          goes_on (exceeds 63 filters.cno_thrs) _ (exceeds_lem 63 filters.cno_thrs) (
            goes_on (refuses_elevation filters.min_elev) _ (elevation_lem filters.min_elev) (
              goes_on (refuses_fix_mode filters.fix_mode) _ (fix_mode_lem filters.fix_mode) (
                goes_on (exceeds 9999 filters.pdop_mask) _ (exceeds_lem 9999 filters.pdop_mask) (
                  goes_on (exceeds 9999 filters.tdop_mask) true (exceeds_lem 9999 filters.tdop_mask)
                    ((λ e. e), (λ e. e))))))))))

-- The navigation filters are accepted exactly when each given value is in its range and the least
-- number of satellites is not above the greatest.
pub check_navigation_filters_iff :
    (filters : NavigationFilters)
    → (check_navigation_filters (some filters) ≡ true) ↔ AreAccepted filters
check_navigation_filters_iff filters =
    let (f, f') = in_order filters in
    (
      (λ e.
          let (a, (b, (c, (d, (g, (h, (i, (j, (k, _))))))))) = f e in
          record {
            min_svs_range = a;
            max_svs_range = b;
            ordered = c;
            min_cno_range = d;
            cno_thrs_range = g;
            min_elev_range = h;
            fix_mode_range = i;
            pdop_mask_range = j;
            tdop_mask_range = k;
          }),
      (λ r. f' (
        r.min_svs_range,
        (
          r.max_svs_range,
          (
            r.ordered,
            (
              r.min_cno_range,
              (
                r.cno_thrs_range,
                (
                  r.min_elev_range,
                  (r.fix_mode_range, (r.pdop_mask_range, (r.tdop_mask_range, refl))),
                ),
              ),
            ),
          ),
        ),
      )),
    )
