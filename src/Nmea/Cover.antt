-- ===== src/Nmea/Cover.antt =====
-- The GSV sentences of src/ublox/NmeaForwarder.cpp against a description by lists: the satellites of
-- each system, four to a sentence.
use gnsshat.Base.{
  true, ℕ, zero, suc, ◌+◌, ◌*◌, ◌≡◌, refl, sym, ap, ◌∙◌, arith, List, [], ◌∷◌, ◌++◌, append_assoc,
  length, take, drop, All, All-append,
}
use gnsshat.Navigation.Types.{SatelliteInfo}
use gnsshat.Navigation.Store.{NavigationStore}
use gnsshat.Nmea.Text.{Text, text, decimal, framed_sentence}
use gnsshat.Nmea.Sentences.{comma}
use gnsshat.Nmea.Checked.{check_sentence, framed_sentence_checked}
use gnsshat.Nmea.Stars.{
  behind, behind_comma, literal-IsStarless, decimal-IsStarless, talker_of-IsStarless,
  gsv_fields-IsStarless,
}
use gnsshat.Nmea.Satellites.{
  talker_of, gsv_fields, gsv_sentence, gsv_sentences, gsv_groups, generate_gsv, satellite_groups,
  gsv_slice, total_msgs,
}
use gnsshat.Nmea.Groups.{group, AreAscending, of_system, satellite_groups_lem}

abbrev pub in_fours {ℓ} : {A : Type ℓ} → List A → List (List A)
in_fours [] = []
in_fours (a ∷ []) = (a ∷ []) ∷ []
in_fours (a ∷ b ∷ []) = (a ∷ b ∷ []) ∷ []
in_fours (a ∷ b ∷ c ∷ []) = (a ∷ b ∷ c ∷ []) ∷ []
in_fours (a ∷ b ∷ c ∷ d ∷ rest) = (a ∷ b ∷ c ∷ d ∷ []) ∷ in_fours rest

abbrev pub joined {ℓ} : {A : Type ℓ} → List (List A) → List A
joined [] = []
joined (part ∷ parts) = part ++ joined parts

-- The sentence with this number for some of the satellites of a system.
abbrev pub sentence_of : List SatelliteInfo → ℕ → List SatelliteInfo → Text
sentence_of sats number part = framed_sentence (
    talker_of sats
    ++ (text "GSV,"
        ++ (decimal (length (in_fours sats))
            ++ (comma
                ++ (decimal number ++ (comma ++ (decimal (length sats) ++ gsv_fields part)))))))

abbrev pub sentences_of : List SatelliteInfo → ℕ → List (List SatelliteInfo) → List Text
sentences_of sats number [] = []
sentences_of sats number (part ∷ parts) =
    sentence_of sats number part ∷ sentences_of sats (number + 1) parts

-- The sentences of all groups, those of a group numbered from 1.
abbrev pub all_sentences : List (ℕ × List SatelliteInfo) → List Text
all_sentences [] = []
all_sentences ((id, sats) ∷ groups) = sentences_of sats 1 (in_fours sats) ++ all_sentences groups

joined-in_fours {ℓ} : {A : Type ℓ} (xs : List A) → joined (in_fours xs) ≡ xs
joined-in_fours [] = refl
joined-in_fours (a ∷ []) = refl
joined-in_fours (a ∷ b ∷ []) = refl
joined-in_fours (a ∷ b ∷ c ∷ []) = refl
joined-in_fours (a ∷ b ∷ c ∷ d ∷ rest) = ap (λ later. a ∷ b ∷ c ∷ d ∷ later) (joined-in_fours rest)

joined-append {ℓ} :
    {A : Type ℓ} (xs ys : List (List A)) → joined (xs ++ ys) ≡ joined xs ++ joined ys
joined-append [] ys = refl
joined-append (x ∷ xs) ys =
    ap (◌++◌ x) (joined-append xs ys) ∙ sym (append_assoc x (joined xs) (joined ys))

length-in_fours : (sats : List SatelliteInfo) → length (in_fours sats) ≡ total_msgs sats
length-in_fours [] = refl
length-in_fours (a ∷ []) = omega arith
length-in_fours (a ∷ b ∷ []) = omega arith
length-in_fours (a ∷ b ∷ c ∷ []) = omega arith
length-in_fours (a ∷ b ∷ c ∷ d ∷ rest) = omega (arith, length-in_fours rest)

drop_nil {ℓ} : {A : Type ℓ} (n : ℕ) → drop {A = A} n [] ≡ []
drop_nil zero = refl
drop_nil (suc n) = refl

drop-drop {ℓ} : {A : Type ℓ} (m n : ℕ) (xs : List A) → drop m (drop n xs) ≡ drop (n + m) xs
drop-drop m zero xs = ap (λ k. drop k xs) (omega arith)
drop-drop m (suc n) [] = drop_nil m ∙ sym (drop_nil (suc n + m))
drop-drop m (suc n) (x ∷ xs) =
    let same : suc (n + m) ≡ suc n + m = omega arith in
    drop-drop m n xs ∙ ap (λ k. drop k (x ∷ xs)) same

-- The code's sentence, where its slice is the part.
gsv_sentence_of :
    (sats part rest : List SatelliteInfo) (k : ℕ)
    → drop (k * 4) sats ≡ rest
    → take 4 rest ≡ part
    → gsv_sentence sats (k + 1) ≡ sentence_of sats (k + 1) part
gsv_sentence_of sats part rest k e f =
    let here : gsv_slice sats (k + 1) ≡ part =
      ap (λ n. take 4 (drop (n * 4) sats)) (omega arith) ∙ ap (take 4) e ∙ f in
    rw (here, length-in_fours sats) refl

-- The loop from the sentence behind `k` others on, where `rest` is left.
gsv_sentences_from :
    (sats rest : List SatelliteInfo) (k : ℕ)
    → drop (k * 4) sats ≡ rest
    → gsv_sentences (length (in_fours rest)) (k + 1) sats
      ≡ joined (sentences_of sats (k + 1) (in_fours rest))
unfolding gsv_sentences
gsv_sentences_from sats [] k e = refl
gsv_sentences_from sats (a ∷ []) k e =
    ap (λ s. s ++ []) (gsv_sentence_of sats (a ∷ []) (a ∷ []) k e refl)
gsv_sentences_from sats (a ∷ b ∷ []) k e =
    ap (λ s. s ++ []) (gsv_sentence_of sats (a ∷ b ∷ []) (a ∷ b ∷ []) k e refl)
gsv_sentences_from sats (a ∷ b ∷ c ∷ []) k e =
    ap (λ s. s ++ []) (gsv_sentence_of sats (a ∷ b ∷ c ∷ []) (a ∷ b ∷ c ∷ []) k e refl)
gsv_sentences_from sats (a ∷ b ∷ c ∷ d ∷ rest) k e =
    let left : drop ((k + 1) * 4) sats ≡ rest =
      ap (λ n. drop n sats) (omega arith) ∙ sym (drop-drop 4 (k * 4) sats) ∙ ap (drop 4) e in
    rw
      (
        gsv_sentence_of sats (a ∷ b ∷ c ∷ d ∷ []) (a ∷ b ∷ c ∷ d ∷ rest) k e refl,
        gsv_sentences_from sats rest (k + 1) left,
      )
      refl

gsv_groups-joined :
    (groups : List (ℕ × List SatelliteInfo)) → gsv_groups groups ≡ joined (all_sentences groups)
unfolding gsv_groups
gsv_groups-joined [] = refl
gsv_groups-joined ((id, sats) ∷ groups) =
    let here : gsv_sentences (total_msgs sats) 1 sats
        ≡ joined (sentences_of sats 1 (in_fours sats)) =
      ap (λ n. gsv_sentences n 1 sats) (sym (length-in_fours sats))
      ∙ gsv_sentences_from sats sats 0 refl in
    rw (here, gsv_groups-joined groups)
      (sym (joined-append (sentences_of sats 1 (in_fours sats)) (all_sentences groups)))

abbrev pub IsChecked : Text → Type 0
IsChecked sentence = check_sentence sentence ≡ true

sentence_of-IsChecked :
    (sats : List SatelliteInfo) (number : ℕ) (part : List SatelliteInfo)
    → IsChecked (sentence_of sats number part)
sentence_of-IsChecked sats number part = framed_sentence_checked _ (
    behind (talker_of sats) _ (talker_of-IsStarless sats) (
      behind (text "GSV,") _ (literal-IsStarless (text "GSV,") refl) (
        behind (decimal (length (in_fours sats))) _ (decimal-IsStarless (length (in_fours sats))) (
          behind_comma (decimal number) _ (decimal-IsStarless number) (
            behind_comma (decimal (length sats)) _ (decimal-IsStarless (length sats))
              (gsv_fields-IsStarless part))))))

sentences_of-IsChecked :
    (sats : List SatelliteInfo) (number : ℕ) (parts : List (List SatelliteInfo))
    → All IsChecked (sentences_of sats number parts)
sentences_of-IsChecked sats number [] = tt
sentences_of-IsChecked sats number (part ∷ parts) =
    (sentence_of-IsChecked sats number part, sentences_of-IsChecked sats (number + 1) parts)

all_sentences-IsChecked :
    (groups : List (ℕ × List SatelliteInfo)) → All IsChecked (all_sentences groups)
all_sentences-IsChecked [] = tt
all_sentences-IsChecked ((id, sats) ∷ groups) =
    All-append IsChecked (sentences_of sats 1 (in_fours sats)) (all_sentences groups)
      (sentences_of-IsChecked sats 1 (in_fours sats)) (all_sentences-IsChecked groups)

-- What is printed for GSV is the text of these sentences, one after the other: the satellites of each
-- system, IMES left out, in groups by the number of the system in ascending order, each group in the
-- order of the store and cut into fours, with one sentence for each four that has its number, the
-- number of sentences of the group and that of its satellites. No satellite of a group is left out
-- or repeated by the cut, and each sentence passes the check of a reader.
pub generate_gsv_lem :
    (nav : NavigationStore)
    → let groups = satellite_groups nav.satellites [] in
      (generate_gsv nav ≡ joined (all_sentences groups))
      × AreAscending groups
      × ((id : ℕ) → group id groups ≡ of_system id nav.satellites)
      × ((id : ℕ) → joined (in_fours (group id groups)) ≡ group id groups)
      × All IsChecked (all_sentences groups)
unfolding generate_gsv
generate_gsv_lem nav =
    let groups = satellite_groups nav.satellites [] in
    let (ascending, found) = satellite_groups_lem nav.satellites in
    (
      gsv_groups-joined groups,
      ascending,
      found,
      (λ id. joined-in_fours (group id groups)),
      all_sentences-IsChecked groups,
    )
