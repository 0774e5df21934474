-- ===== src/Startup/Geofences.antt =====
-- The geofence registers that the constructor `M9NStartup::M9NStartup` of src/ublox/Startup.cpp
-- assigns.
use gnsshat.Base.{ℕ, List, [], ◌∷◌, ◌++◌, Option, none, some, to_le}
use gnsshat.Config.{Floating, Geofence, Geofencing}
use gnsshat.Messages.Keys.{
  cfg_geofence_conflvl, cfg_geofence_use_pio, cfg_geofence_pinpol, cfg_geofence_pin,
  cfg_geofence_use_fence1, cfg_geofence_fence1_lat, cfg_geofence_fence1_lon,
  cfg_geofence_fence1_rad, cfg_geofence_use_fence2, cfg_geofence_fence2_lat,
  cfg_geofence_fence2_lon, cfg_geofence_fence2_rad, cfg_geofence_use_fence3,
  cfg_geofence_fence3_lat, cfg_geofence_fence3_lon, cfg_geofence_fence3_rad,
  cfg_geofence_use_fence4, cfg_geofence_fence4_lat, cfg_geofence_fence4_lon,
  cfg_geofence_fence4_rad,
}
use gnsshat.Settings.{Settings}
use gnsshat.Startup.Registers.{◌≔◌}

-- The keys of one of the four slots.
pub record FenceKeys : Type 0 where
  pub use_key : ℕ
  pub lat_key : ℕ
  pub lon_key : ℕ
  pub rad_key : ℕ

abbrev pub fence_keys : List FenceKeys
fence_keys =
    record {
      use_key = cfg_geofence_use_fence1;
      lat_key = cfg_geofence_fence1_lat;
      lon_key = cfg_geofence_fence1_lon;
      rad_key = cfg_geofence_fence1_rad;
    }
    ∷ record {
      use_key = cfg_geofence_use_fence2;
      lat_key = cfg_geofence_fence2_lat;
      lon_key = cfg_geofence_fence2_lon;
      rad_key = cfg_geofence_fence2_rad;
    }
    ∷ record {
      use_key = cfg_geofence_use_fence3;
      lat_key = cfg_geofence_fence3_lat;
      lon_key = cfg_geofence_fence3_lon;
      rad_key = cfg_geofence_fence3_rad;
    }
    ∷ record {
      use_key = cfg_geofence_use_fence4;
      lat_key = cfg_geofence_fence4_lat;
      lon_key = cfg_geofence_fence4_lon;
      rad_key = cfg_geofence_fence4_rad;
    }
    ∷ []

abbrev pub geofencing_pio_pin : ℕ
geofencing_pio_pin = 6

abbrev pub pio_to_registers : Option ℕ → Settings
pio_to_registers none = (cfg_geofence_use_pio ≔ (0 ∷ [])) ∷ (cfg_geofence_pinpol ≔ (0 ∷ [])) ∷ []
pio_to_registers (some polarity) =
    (cfg_geofence_use_pio ≔ (1 ∷ [])) ∷ (cfg_geofence_pinpol ≔ (polarity ∷ [])) ∷ []

module _ (F : Floating) where
  -- One round of the loop over the slots, with the geofence for it when there is one.
  abbrev pub fence_to_registers : FenceKeys → Option (Geofence F.Real) → Settings
  fence_to_registers slot none =
      (slot.use_key ≔ (0 ∷ []))
      ∷ (slot.lat_key ≔ to_le 4 0)
      ∷ (slot.lon_key ≔ to_le 4 0)
      ∷ (slot.rad_key ≔ to_le 4 0)
      ∷ []
  fence_to_registers slot (some fence) =
      (slot.use_key ≔ (1 ∷ []))
      ∷ (slot.lat_key ≔ to_le 4 (F.to_int32 10000000 fence.lat))
      ∷ (slot.lon_key ≔ to_le 4 (F.to_int32 10000000 fence.lon))
      ∷ (slot.rad_key ≔ to_le 4 (F.to_uint32 100 fence.radius))
      ∷ []

  abbrev pub fences_to_registers : List FenceKeys → List (Geofence F.Real) → Settings
  fences_to_registers [] fences = []
  fences_to_registers (slot ∷ slots) [] =
      fence_to_registers slot none ++ fences_to_registers slots []
  fences_to_registers (slot ∷ slots) (fence ∷ fences) =
      fence_to_registers slot (some fence) ++ fences_to_registers slots fences

  abbrev pub geofencing_to_registers : Option (Geofencing F.Real) → Settings
  geofencing_to_registers none =
      (cfg_geofence_conflvl ≔ (0 ∷ []))
      ∷ (pio_to_registers none
          ++ ((cfg_geofence_pin ≔ (geofencing_pio_pin ∷ [])) ∷ fences_to_registers fence_keys []))
  geofencing_to_registers (some geofencing) =
      (cfg_geofence_conflvl ≔ (geofencing.confidence_level ∷ []))
      ∷ (pio_to_registers geofencing.pio_pin_polarity
          ++ ((cfg_geofence_pin ≔ (geofencing_pio_pin ∷ []))
              ∷ fences_to_registers fence_keys geofencing.geofences))
