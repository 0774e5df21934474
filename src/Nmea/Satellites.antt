-- ===== src/Nmea/Satellites.antt =====
-- The two sentences of src/ublox/NmeaForwarder.cpp that list satellites, GSA and GSV.
use gnsshat.Base.{
  ℕ, zero, suc, ◌+◌, ◌-◌, ◌*◌, ◌/◌, not, ◌||◌, List, [], ◌∷◌, ◌++◌, ◌==◌, ltb, if◌then◌else◌,
  length, take, drop,
}
use gnsshat.Navigation.Types.{SatelliteInfo}
use gnsshat.Navigation.Store.{NavigationStore}
use gnsshat.Nmea.Text.{Text, text, decimal, decimal_int, padded, framed_sentence}
use gnsshat.Nmea.Sentences.{Floats, comma}

-- By the number of the system: 0 GPS, 1 SBAS, 2 Galileo, 3 BeiDou, 4 IMES, 5 QZSS, 6 GLONASS.
abbrev pub gnss_id_to_gsv_talker_id : ℕ → Text
gnss_id_to_gsv_talker_id id =
    if id == 6
    then text "GL"
    else if id == 2
    then text "GA"
    else if id == 3
    then text "GB"
    else if id == 5
    then text "GQ"
    else text "GP"

abbrev pub gnss_id_to_nmea_system_id : ℕ → ℕ
gnss_id_to_nmea_system_id id =
    if id == 6 then 2 else if id == 2 then 3 else if id == 3 then 4 else if id == 5 then 5 else 1

abbrev pub satellite_to_nmea_prn : SatelliteInfo → ℕ
satellite_to_nmea_prn sat = if sat.gnss_id == 6 then sat.sv_id + 64 else sat.sv_id

-- `groups[id].push_back(value)` on a `std::map`, which is in the order of its keys.
unfoldable pub push_group {ℓ} : {A : Type ℓ} → ℕ → A → List (ℕ × List A) → List (ℕ × List A)
push_group id value [] = (id, value ∷ []) ∷ []
push_group id value ((key, values) ∷ groups) =
    let later = push_group id value groups in
    if ltb id key
    then (id, value ∷ []) ∷ (key, values) ∷ groups
    else if id == key
    then (key, values ++ (value ∷ [])) ∷ groups
    else (key, values) ∷ later

-- The loops over the satellites, which skip IMES, and GSA those that are not used.
unfoldable pub used_prns : List SatelliteInfo → List (ℕ × List ℕ) → List (ℕ × List ℕ)
used_prns [] groups = groups
used_prns (sat ∷ sats) groups =
    let skipped = used_prns sats groups in
    let pushed =
      used_prns sats
        (push_group (gnss_id_to_nmea_system_id sat.gnss_id) (satellite_to_nmea_prn sat) groups) in
    if not sat.used_in_fix || sat.gnss_id == 4 then skipped else pushed

unfoldable pub satellite_groups :
    List SatelliteInfo → List (ℕ × List SatelliteInfo) → List (ℕ × List SatelliteInfo)
satellite_groups [] groups = groups
satellite_groups (sat ∷ sats) groups =
    let skipped = satellite_groups sats groups in
    let pushed =
      satellite_groups sats (push_group (gnss_id_to_nmea_system_id sat.gnss_id) sat groups) in
    if sat.gnss_id == 4 then skipped else pushed

-- The twelve places for the satellites of a GSA sentence.
abbrev pub prn_places : ℕ → List ℕ → Text
prn_places zero prns = []
prn_places (suc left) [] = 44 ∷ prn_places left []
prn_places (suc left) (prn ∷ prns) = decimal prn ++ (44 ∷ prn_places left prns)

abbrev pub gsa_fix_type : ℕ → ℕ
gsa_fix_type fix_type = if fix_type == 2 then 2 else if fix_type == 3 || fix_type == 4 then 3 else 1

module _ (floats : Floats) where
  abbrev pub gsa_sentence : NavigationStore → ℕ → List ℕ → Text
  gsa_sentence nav id prns = framed_sentence (
      text "GNGSA,A,"
      ++ (decimal (gsa_fix_type nav.pvt.fix_type)
          ++ (comma
              ++ (prn_places 12 prns
                  ++ (floats.fixed 1 nav.dop.position
                      ++ (comma
                          ++ (floats.fixed 1 nav.dop.horizontal
                              ++ (comma
                                  ++ (floats.fixed 1 nav.dop.vertical
                                      ++ (comma ++ decimal id))))))))))

  unfoldable pub gsa_sentences : NavigationStore → List (ℕ × List ℕ) → Text
  gsa_sentences nav [] = []
  gsa_sentences nav ((id, prns) ∷ groups) = gsa_sentence nav id prns ++ gsa_sentences nav groups

  abbrev pub gsa_of : NavigationStore → List (ℕ × List ℕ) → Text
  unfolding gsa_sentences
  gsa_of nav [] = gsa_sentence nav 1 []
  gsa_of nav (group ∷ groups) = gsa_sentences nav (group ∷ groups)

  unfoldable pub generate_gsa : NavigationStore → Text
  generate_gsa nav = gsa_of nav (used_prns nav.satellites [])

-- The fields of the satellites of one GSV sentence.
unfoldable pub gsv_fields : List SatelliteInfo → Text
gsv_fields [] = []
gsv_fields (sat ∷ sats) =
    44
    ∷ (padded 2 (decimal (satellite_to_nmea_prn sat))
        ++ (44
            ∷ (decimal_int sat.elevation
                ++ (44
                    ∷ (padded 3 (decimal_int sat.azimuth)
                        ++ (44
                            ∷ ((if ltb 0 sat.cno then padded 2 (decimal sat.cno) else [])
                                ++ gsv_fields sats)))))))

-- The satellites from `startIdx` to `endIdx` of the sentence `msgNum`.
abbrev pub gsv_slice : List SatelliteInfo → ℕ → List SatelliteInfo
gsv_slice sats msg_num = take 4 (drop ((msg_num - 1) * 4) sats)

abbrev pub total_msgs : List SatelliteInfo → ℕ
total_msgs sats = (length sats + 3) / 4

abbrev pub talker_of : List SatelliteInfo → Text
talker_of [] = []
talker_of (sat ∷ sats) = gnss_id_to_gsv_talker_id sat.gnss_id

abbrev pub gsv_sentence : List SatelliteInfo → ℕ → Text
gsv_sentence sats msg_num = framed_sentence (
    talker_of sats
    ++ (text "GSV,"
        ++ (decimal (total_msgs sats)
            ++ (comma
                ++ (decimal msg_num
                    ++ (comma
                        ++ (decimal (length sats) ++ gsv_fields (gsv_slice sats msg_num))))))))

-- The loop over the sentences, with the number that are left.
unfoldable pub gsv_sentences : ℕ → ℕ → List SatelliteInfo → Text
gsv_sentences zero msg_num sats = []
gsv_sentences (suc left) msg_num sats =
    gsv_sentence sats msg_num ++ gsv_sentences left (msg_num + 1) sats

unfoldable pub gsv_groups : List (ℕ × List SatelliteInfo) → Text
gsv_groups [] = []
gsv_groups ((id, sats) ∷ groups) = gsv_sentences (total_msgs sats) 1 sats ++ gsv_groups groups

unfoldable pub generate_gsv : NavigationStore → Text
generate_gsv nav = gsv_groups (satellite_groups nav.satellites [])
