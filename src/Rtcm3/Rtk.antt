-- ===== src/Rtcm3/Rtk.antt =====
-- src/ublox/RTK.cpp: what a base hands out of the store, and what a rover puts into it.
use gnsshat.Base.{ℕ, Bool, List, [], ◌∷◌, Option, none, some, Bytes}
use gnsshat.Config.{RtkMode}
use gnsshat.Rtcm3.Store.{Rtcm3Store, get_frame, get_frames, update_frames}

abbrev pub tiny_correction_ids : List ℕ
tiny_correction_ids = 1005 ∷ 1074 ∷ 1084 ∷ 1094 ∷ 1124 ∷ 1230 ∷ []

abbrev pub full_correction_ids : List ℕ
full_correction_ids = 1005 ∷ 1077 ∷ 1087 ∷ 1097 ∷ 1127 ∷ 1230 ∷ []

-- With the outcome of taking the guard of the store.
abbrev pub get_full_corrections : Bool → Rtcm3Store → List Bytes
unfolding get_frames
get_full_corrections acquired store = get_frames acquired store full_correction_ids

abbrev pub get_tiny_corrections : Bool → Rtcm3Store → List Bytes
unfolding get_frames
get_tiny_corrections acquired store = get_frames acquired store tiny_correction_ids

abbrev pub get_rtcm3_frame : Bool → Rtcm3Store → ℕ → Bytes
unfolding get_frame
get_rtcm3_frame acquired store id = get_frame acquired store id

abbrev pub apply_corrections : Bool → Rtcm3Store → List Bytes → Rtcm3Store
unfolding update_frames
apply_corrections acquired store corrections = update_frames acquired store corrections

-- Which of the two there is.
abbrev pub rtk_role {ℓ} : {A : Type ℓ} → Option A → (A → RtkMode) → Option RtkMode
rtk_role none mode = none
rtk_role (some rtk) mode = some (mode rtk)
