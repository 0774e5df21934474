-- ===== src/Rtcm3/Store/Latest.antt =====
-- What the store of src/ublox/Rtcm3Store.cpp holds after `parse` of src/ublox/Rtcm3Parser.cpp.
use gnsshat.Base.{
  ℕ, zero, suc, ◌+◌, ◌≡◌, refl, sym, ap, ◌∙◌, inl, inr, Bool, true, false, List, [], ◌∷◌, ◌++◌,
  append-nil, Option, none, some, ◌==◌, ==_iff, ltb, ltb→le, ◌*◌, ◌/◌, Bool-cases, if◌then◌else◌,
  length, drop, arith, Bytes, Result, ok, err, read_at_ok,
}
use gnsshat.Rtcm3.Parser.{extract_rtcm3_frames, get_frame_id, max_number_of_rtcm3_frames}
use gnsshat.Rtcm3.Parser.Sound.{extract_rtcm3_frames-IsExtraction}
use gnsshat.Rtcm3.Store.{
  Rtcm3Store, replaced, update_frame, get_frame, parse_frame, parse_frames, parse,
}
use gnsshat.Settings.{find, value_or_empty}
use gnsshat.Settings.Laws.{find-assign, find-assign_other, same, apart}
use gnsshat.Ubx.Frames.{Extracted}

drop_all : (n : ℕ) (xs : Bytes) → length xs ≡ n → drop n xs ≡ []
drop_all zero [] e = refl
drop_all zero (x ∷ xs) e = absurd (omega arith)
drop_all (suc n) [] e = refl
drop_all (suc n) (x ∷ xs) e = drop_all n xs (omega arith)

-- Copying over a frame of the same size is the same as replacing it.
pub replaced_lem : (old : Option Bytes) (new : Bytes) → replaced old new ≡ new
replaced_lem none new = refl
replaced_lem (some old) new = elim (Bool-cases (length old == length new)) [
  | inl e ↦ rw (e) (
      ap (◌++◌ new) (drop_all (length new) old ((==_iff (length old) (length new)).0 e))
      ∙ append-nil new)
  | inr e ↦ rw (e) refl
]

pub get_frame_id_ok : (frame : Bytes) → (id : ℕ) × (get_frame_id frame ≡ ok id)
unfolding get_frame_id
get_frame_id_ok frame = elim (Bool-cases (ltb (length frame) 6)) [
  | inl short ↦ (0, rw (short))
  | inr long ↦
      let (first, e) = read_at_ok frame 0 (omega (arith, ltb→le (length frame) 6 long)) in
      let (b0, f) = read_at_ok frame 3 (omega (arith, ltb→le (length frame) 6 long)) in
      let (b1, g) = read_at_ok frame 4 (omega (arith, ltb→le (length frame) 6 long)) in
      elim (Bool-cases (first == 0xD3)) [
        | inl preamble ↦ (b0 * 16 + b1 / 16, rw (long, e) (rw (preamble) (rw (f, g))))
        | inr other ↦ (0, rw (long, e) (rw (other)))
      ]
]

abbrev pub id_is : Result ℕ → ℕ → Bool
id_is (ok n) id = n == id
id_is (err e) id = false

abbrev pub newer : Bytes → ℕ → Option Bytes → Option Bytes
newer [] id current = current
newer (b ∷ frame) id current =
    if id_is (get_frame_id (b ∷ frame)) id then some (b ∷ frame) else current

-- The last frame of a list with a message number, or what was there before.
abbrev pub latest : List Bytes → ℕ → Option Bytes → Option Bytes
latest [] id current = current
latest (frame ∷ frames) id current = latest frames id (newer frame id current)

update_frame-find :
    (store : Rtcm3Store) (n id : ℕ) (new : Bytes)
    → find (update_frame true store n new).frames id
      ≡ (if n == id then some new else find store.frames id)
unfolding update_frame
update_frame-find store n id new = elim (Bool-cases (n == id)) [
  | inl e ↦
      rw (e, replaced_lem (find store.frames n) new)
        (rw (sym (same n id e)) (find-assign store.frames n new))
  | inr e ↦
      rw (e, replaced_lem (find store.frames n) new)
        (find-assign_other store.frames n id new (apart n id e))
]

parse_frame-newer :
    (acquired : Bool) (store : Rtcm3Store) (frame : Bytes)
    → acquired ≡ true
    → (next : Rtcm3Store) × (parse_frame acquired store frame ≡ ok next)
      × ((id : ℕ) → find next.frames id ≡ newer frame id (find store.frames id))
unfolding parse_frame
parse_frame-newer acquired store [] t = (store, refl, λ id. refl)
parse_frame-newer acquired store (b ∷ frame) t =
    let (n, e) = get_frame_id_ok (b ∷ frame) in
    (
      update_frame true store n (b ∷ frame),
      rw (e, t),
      λ id. rw (e) (update_frame-find store n id (b ∷ frame)),
    )

pub parse_frames-latest :
    (acquired : ℕ → Bool) (index : ℕ) (store : Rtcm3Store) (frames : List Bytes)
    → ((i : ℕ) → acquired i ≡ true)
    → (next : Rtcm3Store) × (parse_frames acquired index store frames ≡ ok next)
      × ((id : ℕ) → find next.frames id ≡ latest frames id (find store.frames id))
unfolding parse_frames
parse_frames-latest acquired index store [] t = (store, refl, λ id. refl)
parse_frames-latest acquired index store (frame ∷ frames) t =
    let (step, e, found) = parse_frame-newer (acquired index) store frame (t index) in
    let (next, f, later) = parse_frames-latest acquired (index + 1) step frames t in
    (next, rw (e) f, λ id. later id ∙ ap (latest frames id) (found id))

-- On any buffer, when the guard is taken in time for each frame, `parse` returns, and `getFrame`
-- then gives for each message number the last frame extracted with this number, or what it gave
-- before when there is none.
pub parse-latest :
    (acquired : ℕ → Bool) (store : Rtcm3Store) (buffer : Bytes)
    → ((i : ℕ) → acquired i ≡ true)
    → (extracted : Extracted) × (next : Rtcm3Store) × (extract_rtcm3_frames
          max_number_of_rtcm3_frames buffer
        ≡ ok extracted)
      × (parse acquired store buffer ≡ ok (next, extracted.unfinished))
      × ((id : ℕ)
          → get_frame true next id
            ≡ value_or_empty (latest extracted.frames id (find store.frames id)))
unfolding parse get_frame
parse-latest acquired store buffer t =
    let (extracted, e, _) = extract_rtcm3_frames-IsExtraction max_number_of_rtcm3_frames buffer in
    let (next, f, found) = parse_frames-latest acquired 0 store extracted.frames t in
    (extracted, next, e, rw (e, f), λ id. ap value_or_empty (found id))
