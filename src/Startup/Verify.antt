-- ===== src/Startup/Verify.antt =====
-- What `configure` and `verifyConfig` of src/ublox/Startup.cpp find out from the values that the
-- receiver reported.
pub mod Repair
use gnsshat.Base.{
  ℕ, Bool, true, false, not, List, [], ◌∷◌, Option, none, some, if◌then◌else◌, Bytes, same_bytes,
  Result, ok, err, terminated,
}
use gnsshat.Messages.Pairs.{ConfigKeyValue}
use gnsshat.Settings.{Settings, get_value}

abbrev pub is_empty : Bytes → Bool
is_empty [] = true
is_empty (b ∷ bytes) = false

-- A key is configured as expected.
abbrev pub agrees : Settings → Settings → ℕ → Bool
agrees expected stored key = same_bytes (get_value stored key) (get_value expected key)

-- The lambda of `verifyConfig`, with what `all_of` does for the keys that follow.
abbrev pub verify_key : Bytes → Bool → Result Bool → Result Bool
verify_key expected agree later =
    if is_empty expected then err terminated else if agree then later else ok false

unfoldable pub verify_config : Settings → Settings → List ℕ → Result Bool
verify_config expected stored [] = ok true
verify_config expected stored (key ∷ keys) =
    let later = verify_config expected stored keys in
    verify_key (get_value expected key) (agrees expected stored key) later

abbrev pub with_mismatch : ℕ → Bytes → Option Settings → Option Settings
with_mismatch key expected none = none
with_mismatch key expected (some more) = some (record { key = key; value = expected } ∷ more)

-- The loop of `configure` that collects `mismatches`; `none` where it returns false.
unfoldable pub find_mismatches : Settings → Settings → List ℕ → Option Settings
find_mismatches expected stored [] = some []
find_mismatches expected stored (key ∷ keys) =
    let more = find_mismatches expected stored keys in
    let value = get_value expected key in
    if is_empty value
    then none
    else if agrees expected stored key
    then more
    else with_mismatch key value more
