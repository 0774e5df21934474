-- ===== src/Startup/Expected/Widths.antt =====
-- Each value that the configuration is turned into has the size that its key states.
use gnsshat.Base.{
  ℕ, ◌≡◌, refl, Option, none, some, List, [], ◌∷◌, Bytes, length, to_le, arith, word, All,
  Bool-cases, inl, inr,
}
use gnsshat.Config.{
  Floating, NavigationFilters, Pulse, TimepulsePinConfig, Position, ecef, lla, BaseConfig,
  survey_in, fixed_position, Geofence, Geofencing,
}
use gnsshat.Messages.KeySizes.Widths.{stated_size}
use gnsshat.Settings.Laws.{AllPairs, AllPairs-append}
use gnsshat.Startup.Expected.{Fits}
use gnsshat.Messages.Keys.{cfg_geofence_pin}
use gnsshat.Startup.Geofences.{
  geofencing_pio_pin, FenceKeys, fence_keys, geofencing_to_registers, fences_to_registers,
  fence_to_registers, pio_to_registers,
}
use gnsshat.Startup.Registers.{
  ◌≔◌, rate_to_registers, navigation_filters_to_registers, given, timepulse_to_registers,
  position_to_registers, base_config_to_registers, pulse_width_no_fix,
}

-- The registers of the measurement rate.
pub rate-AllPairs : (rate : ℕ) → AllPairs Fits (rate_to_registers rate)
unfolding stated_size to_le
rate-AllPairs rate = ((refl, omega arith), ((refl, omega arith), ((refl, omega arith), tt)))

given-AllPairs :
    {A : Type 0} (key : ℕ) (bytes : A → Bytes) (o : Option A)
    → ((a : A) → Fits key (bytes a))
    → AllPairs Fits (given key bytes o)
given-AllPairs key bytes none fit = tt
given-AllPairs key bytes (some a) fit = (fit a, tt)

pub navigation_filters-AllPairs :
    (filters : Option NavigationFilters) → AllPairs Fits (navigation_filters_to_registers filters)
unfolding stated_size to_le
navigation_filters-AllPairs none = tt
navigation_filters-AllPairs (some filters) =
    AllPairs-append Fits _ _ (given-AllPairs _ (to_le 1) filters.min_svs (λ v. (refl, omega arith)))
      (AllPairs-append Fits _ _
        (given-AllPairs _ (to_le 1) filters.max_svs (λ v. (refl, omega arith)))
        (AllPairs-append Fits _ _
          (given-AllPairs _ (to_le 1) filters.min_cno (λ v. (refl, omega arith)))
          (AllPairs-append Fits _ _
            (given-AllPairs _ (λ v. word 8 v ∷ []) filters.min_elev (λ v. (refl, omega arith)))
            (AllPairs-append Fits _ _
              (given-AllPairs _ (to_le 1) filters.n_cno_thrs (λ v. (refl, omega arith)))
              (AllPairs-append Fits _ _
                (given-AllPairs _ (to_le 1) filters.cno_thrs (λ v. (refl, omega arith)))
                (AllPairs-append Fits _ _
                  (given-AllPairs _ (to_le 1) filters.fix_mode (λ v. (refl, omega arith)))
                  (AllPairs-append Fits _ _
                    (given-AllPairs _ (to_le 2) filters.pdop_mask (λ v. (refl, omega arith)))
                    (AllPairs-append Fits _ _
                      (given-AllPairs _ (to_le 2) filters.tdop_mask (λ v. (refl, omega arith)))
                      (AllPairs-append Fits _ _
                        (given-AllPairs _ (to_le 2) filters.p_acc_mask (λ v. (refl, omega arith)))
                        (given-AllPairs _ (to_le 2) filters.t_acc_mask
                          (λ v. (refl, omega arith))))))))))))

pub pio-AllPairs : (polarity : Option ℕ) → AllPairs Fits (pio_to_registers polarity)
unfolding stated_size
pio-AllPairs none = ((refl, omega arith), ((refl, omega arith), tt))
pio-AllPairs (some polarity) = ((refl, omega arith), ((refl, omega arith), tt))

-- The keys of a slot state the sizes of a flag and three words.
IsSlot : FenceKeys → Type 0
IsSlot slot =
    (1 ≡ stated_size slot.use_key)
    × (4 ≡ stated_size slot.lat_key)
    × (4 ≡ stated_size slot.lon_key)
    × (4 ≡ stated_size slot.rad_key)

slots : All IsSlot fence_keys
unfolding IsSlot stated_size
slots = (
  (refl, refl, refl, refl),
  ((refl, refl, refl, refl), ((refl, refl, refl, refl), ((refl, refl, refl, refl), tt))),
)

module _ (F : Floating) where
  slot-AllPairs :
      (slot : FenceKeys) (fence : Option (Geofence F.Real))
      → IsSlot slot
      → AllPairs Fits (fence_to_registers F slot fence)
  unfolding IsSlot to_le
  slot-AllPairs slot none (a, b, c, d) = (
    (a, omega (arith, a)),
    ((b, omega (arith, b)), ((c, omega (arith, c)), ((d, omega (arith, d)), tt))),
  )
  slot-AllPairs slot (some fence) (a, b, c, d) = (
    (a, omega (arith, a)),
    ((b, omega (arith, b)), ((c, omega (arith, c)), ((d, omega (arith, d)), tt))),
  )

  fences-AllPairs :
      (keys : List FenceKeys) (fences : List (Geofence F.Real))
      → All IsSlot keys
      → AllPairs Fits (fences_to_registers F keys fences)
  fences-AllPairs [] fences h = tt
  fences-AllPairs (slot ∷ keys) [] (h, hs) =
      AllPairs-append Fits (fence_to_registers F slot none) (fences_to_registers F keys [])
        (slot-AllPairs slot none h) (fences-AllPairs keys [] hs)
  fences-AllPairs (slot ∷ keys) (fence ∷ fences) (h, hs) =
      AllPairs-append Fits (fence_to_registers F slot (some fence))
        (fences_to_registers F keys fences) (slot-AllPairs slot (some fence) h)
        (fences-AllPairs keys fences hs)

  pub geofencing-AllPairs :
      (geofencing : Option (Geofencing F.Real))
      → AllPairs Fits (geofencing_to_registers F geofencing)
  unfolding stated_size
  geofencing-AllPairs none = (
    (refl, omega arith),
    AllPairs-append Fits (pio_to_registers none)
        ((cfg_geofence_pin ≔ (geofencing_pio_pin ∷ [])) ∷ fences_to_registers F fence_keys [])
        (pio-AllPairs none) ((refl, omega arith), fences-AllPairs fence_keys [] slots),
  )
  geofencing-AllPairs (some geofencing) = (
    (refl, omega arith),
    AllPairs-append Fits (pio_to_registers geofencing.pio_pin_polarity)
        ((cfg_geofence_pin ≔ (geofencing_pio_pin ∷ []))
          ∷ fences_to_registers F fence_keys geofencing.geofences)
        (pio-AllPairs geofencing.pio_pin_polarity)
        ((refl, omega arith), fences-AllPairs fence_keys geofencing.geofences slots),
  )

  no_fix : (pulse : Option (Pulse F.Real)) → length (pulse_width_no_fix F pulse) ≡ 8
  unfolding to_le
  no_fix none = refl
  no_fix (some pulse) = F.length-double_bytes 100 pulse.pulse_width

  pub timepulse-AllPairs :
      (config : TimepulsePinConfig F.Real) → AllPairs Fits (timepulse_to_registers F config)
  unfolding stated_size to_le
  timepulse-AllPairs config = elim (Bool-cases config.active) [
    | inl active ↦ rw (active) (
      (refl, omega arith),
      (
        (refl, omega arith),
        (
          (refl, omega arith),
          (
            (refl, omega arith),
            (
              (refl, omega arith),
              (
                (no_fix config.pulse_when_no_fix, omega arith),
                (
                  (F.length-double_bytes 100 config.fixed_pulse.pulse_width, omega arith),
                  (
                    (refl, omega arith),
                    ((refl, omega arith), ((refl, omega arith), ((refl, omega arith), tt))),
                  ),
                ),
              ),
            ),
          ),
        ),
      ),
    )
    | inr inactive ↦ rw (inactive) ((refl, omega arith), tt)
  ]

  pub position-AllPairs :
      (position : Position F.Real) → AllPairs Fits (position_to_registers F position)
  unfolding stated_size to_le
  position-AllPairs (ecef x y z) = (
    (refl, omega arith),
    (
      (refl, omega arith),
      (
        (refl, omega arith),
        (
          (refl, omega arith),
          ((refl, omega arith), ((refl, omega arith), ((refl, omega arith), tt))),
        ),
      ),
    ),
  )
  position-AllPairs (lla latitude longitude height) = (
    (refl, omega arith),
    (
      (refl, omega arith),
      (
        (refl, omega arith),
        (
          (refl, omega arith),
          ((refl, omega arith), ((refl, omega arith), ((refl, omega arith), tt))),
        ),
      ),
    ),
  )

  pub base_config-AllPairs :
      (config : BaseConfig F.Real) → AllPairs Fits (base_config_to_registers F config)
  unfolding stated_size to_le
  base_config-AllPairs (survey_in time accuracy) =
      ((refl, omega arith), ((refl, omega arith), ((refl, omega arith), tt)))
  base_config-AllPairs (fixed_position position accuracy) =
      ((refl, omega arith), ((refl, omega arith), position-AllPairs position))
