-- ===== src/Settings.antt =====
-- Maps from configuration keys to the bytes of a value: `expectedConfigValues_` of
-- src/ublox/Startup.hpp and `storedConfigValues_` of src/ublox/UbloxConfigRegistry.hpp, with the
-- operations of src/ublox/UbloxConfigRegistry.cpp on the latter.
pub mod Laws
use gnsshat.Base.{ℕ, List, [], ◌∷◌, Option, none, some, ◌==◌, if◌then◌else◌, Bytes}
use gnsshat.Messages.Pairs.{ConfigKeyValue}

abbrev pub Settings : Type 0
Settings = List ConfigKeyValue

-- `map.find(key)`.
abbrev pub find : Settings → ℕ → Option Bytes
find [] key = none
find (cfg ∷ settings) key = if cfg.key == key then some cfg.value else find settings key

-- `map[key] = value`.
abbrev pub assign : Settings → ℕ → Bytes → Settings
assign [] key value = record { key = key; value = value } ∷ []
assign (cfg ∷ settings) key value =
    let later = assign settings key value in
    if cfg.key == key then record cfg { value = value } ∷ settings else cfg ∷ later

-- Assignments one after the other.
abbrev pub assign_all : Settings → Settings → Settings
assign_all settings [] = settings
assign_all settings (cfg ∷ cfgs) = assign_all (assign settings cfg.key cfg.value) cfgs

abbrev pub keys_of : Settings → List ℕ
keys_of [] = []
keys_of (cfg ∷ settings) = cfg.key ∷ keys_of settings

abbrev pub value_or_empty : Option Bytes → Bytes
value_or_empty none = []
value_or_empty (some value) = value

-- `getExpectedValue` on the one map, `getStoredConfigValue` on the other.
abbrev pub get_value : Settings → ℕ → Bytes
get_value settings key = value_or_empty (find settings key)
