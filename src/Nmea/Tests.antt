-- ===== src/Nmea/Tests.antt =====
-- Satellites of two systems, and a fixed time.
use gnsshat.Base.{ℕ, ◌≡◌, refl, true, false, pos, negsuc, List, [], ◌∷◌, ◌++◌, All}
use gnsshat.Navigation.Types.{SatelliteInfo}
use gnsshat.Rtcm3.Crc.{xor}
use gnsshat.Nmea.Text.{text, digits, decimal, xor_all, calculate_nmea_checksum, framed_sentence}
use gnsshat.Nmea.Satellites.{satellite_groups, gsv_fields, gsv_sentence, generate_gsv}
use gnsshat.Dispatch.Samples.{idle}
use gnsshat.Navigation.Store.{NavigationStore}
use gnsshat.Nmea.Groups.{group, AreAscending, of_system}
use gnsshat.Nmea.Cover.{in_fours, joined, all_sentences, IsChecked, generate_gsv_lem}

abbrev satellite : ℕ → ℕ → SatelliteInfo
satellite gnss_id sv_id = record {
  gnss_id = gnss_id;
  sv_id = sv_id;
  cno = 41;
  elevation = negsuc 4;
  azimuth = pos 7;
  quality = 7;
  used_in_fix = true;
  healthy = true;
  diff_corr = false;
  eph_avail = true;
  alm_avail = true;
}

abbrev sky : List SatelliteInfo
sky =
    satellite 0 1
    ∷ satellite 6 2
    ∷ satellite 0 3
    ∷ satellite 4 9
    ∷ satellite 0 4
    ∷ satellite 0 5
    ∷ satellite 0 12
    ∷ []

one_sentence :
    gsv_sentence (satellite 6 2 ∷ []) 1 ≡ text "$GLGSV,1,1,1,66,-5,007,41*7E" ++ 13 ∷ 10 ∷ []
unfolding framed_sentence calculate_nmea_checksum xor_all xor decimal digits gsv_fields
one_sentence = refl

abbrev nav : NavigationStore
nav = record idle.store { satellites = sky }

generate_gsv_lem_example :
    let groups = satellite_groups nav.satellites [] in
    (generate_gsv nav ≡ joined (all_sentences groups))
    × AreAscending groups
    × ((id : ℕ) → group id groups ≡ of_system id nav.satellites)
    × ((id : ℕ) → joined (in_fours (group id groups)) ≡ group id groups)
    × All IsChecked (all_sentences groups)
generate_gsv_lem_example = generate_gsv_lem nav
