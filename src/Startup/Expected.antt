-- ===== src/Startup/Expected.antt =====
-- Expected values for the keys that src/ublox/Startup.cpp configures: `verifyConfig` ends the
-- program for a key without one.
pub mod Widths
pub mod M9n
pub mod F10t
pub mod F9p
use gnsshat.Base.{
  and_true, ℕ, ◌≡◌, refl, ◌<◌, Bool, true, false, List, [], ◌∷◌, ◌++◌, Option, none, some, ◌==◌,
  ==_iff, ltb, ltb→lt, if◌then◌else◌, Bool-cases, Option-cases, inl, inr, Bytes, length, All, arith,
  ap, ◌∙◌, sym, ◌&&◌,
}
use gnsshat.Messages.KeySizes.Widths.{stated_size}
use gnsshat.Messages.Pairs.{ConfigKeyValue}
use gnsshat.Settings.{Settings, find, assign_all, keys_of, get_value}
use gnsshat.Settings.Laws.{
  Has, AllPairs, AllPairs-find, assign_all-Has, assign_all-Has_keys, assign_all-AllPairs,
}
use gnsshat.Startup.Defaults.{default_expected_config_values}

-- A value has the size that its key states, which is not 0.
abbrev pub Fits : ℕ → Bytes → Type 0
Fits key value = (length value ≡ stated_size key) × (0 < stated_size key)

-- What `getExpectedValue` gives for a key is a value of its size.
abbrev pub IsExpected : Settings → ℕ → Type 0
IsExpected settings key = Fits key (get_value settings key)

all-IsExpected :
    (settings : Settings) (keys : List ℕ)
    → AllPairs Fits settings
    → All (Has settings) keys
    → All (IsExpected settings) keys
all-IsExpected settings [] fit has = tt
all-IsExpected settings (key ∷ keys) fit (h, hs) =
    (AllPairs-find Fits settings key fit h, all-IsExpected settings keys fit hs)

pub groups-IsExpected :
    (settings : Settings) (groups : List (List ℕ))
    → AllPairs Fits settings
    → All (All (Has settings)) groups
    → All (All (IsExpected settings)) groups
groups-IsExpected settings [] fit has = tt
groups-IsExpected settings (keys ∷ groups) fit (h, hs) =
    (all-IsExpected settings keys fit h, groups-IsExpected settings groups fit hs)

-- The table of defaults, by evaluation.
fits : ConfigKeyValue → Bool
fits cfg = (length cfg.value == stated_size cfg.key) && ltb 0 (stated_size cfg.key)

all_fit : Settings → Bool
all_fit [] = true
all_fit (cfg ∷ settings) = fits cfg && all_fit settings

all_fit-AllPairs : (settings : Settings) → all_fit settings ≡ true → AllPairs Fits settings
unfolding all_fit fits
all_fit-AllPairs [] e = tt
all_fit-AllPairs (cfg ∷ settings) e =
    let (here, later) = and_true (fits cfg) (all_fit settings) e in
    let (size, positive) =
      and_true (length cfg.value == stated_size cfg.key) (ltb 0 (stated_size cfg.key)) here in
    (
      (
        (==_iff (length cfg.value) (stated_size cfg.key)).0 size,
        ltb→lt 0 (stated_size cfg.key) positive,
      ),
      all_fit-AllPairs settings later,
    )

pub defaults_fit : AllPairs Fits default_expected_config_values
unfolding all_fit fits stated_size
defaults_fit = all_fit-AllPairs default_expected_config_values refl

is_given : Option Bytes → Bool
is_given none = false
is_given (some value) = true

unfoldable pub has_all : Settings → List ℕ → Bool
unfolding is_given
has_all settings [] = true
has_all settings (key ∷ keys) = is_given (find settings key) && has_all settings keys

is_given-Has :
    (settings : Settings) (key : ℕ) → is_given (find settings key) ≡ true → Has settings key
unfolding is_given
is_given-Has settings key e = elim (Option-cases (find settings key)) [
  | inl missing ↦ absurd (let f = ap is_given missing in cc)
  | inr found ↦ found
]

pub has_all-Has :
    (settings : Settings) (keys : List ℕ) → has_all settings keys ≡ true → All (Has settings) keys
unfolding has_all is_given
has_all-Has settings [] e = tt
has_all-Has settings (key ∷ keys) e =
    let (here, later) = and_true (is_given (find settings key)) (has_all settings keys) e in
    (is_given-Has settings key here, has_all-Has settings keys later)
