-- ===== src/Ubx/Frames/Search.antt =====
-- What the search for the sync characters in src/ublox/UbxParser.cpp finds.
use gnsshat.Base.{
  ◌≡◌, ◌≢◌, refl, ap, ◌⊎◌, inl, inr, ◌&&◌, ◌==◌, Bool-cases, [], ◌∷◌, ◌++◌, arith, Bytes,
}
use gnsshat.Ubx.Frames.{search_sync}

-- No match in these bytes, nor one that begins with their last byte.
abbrev pub NoSync : Bytes → Type 0
NoSync gap = search_sync (gap ++ 0xB5 ∷ []) ≡ []

pub search_sync_here : (rest : Bytes) → search_sync (0xB5 ∷ 0x62 ∷ rest) ≡ 0xB5 ∷ 0x62 ∷ rest
unfolding search_sync
search_sync_here rest = refl

-- The result is a part of the buffer that reaches to its end.
pub search_sync_suffix :
    (buffer : Bytes) → (skipped : Bytes) × (buffer ≡ skipped ++ search_sync buffer)
unfolding search_sync
search_sync_suffix [] = ([], refl)
search_sync_suffix (x ∷ []) = (x ∷ [], refl)
search_sync_suffix (x ∷ y ∷ rest) =
    let (skipped, whole) = search_sync_suffix (y ∷ rest) in
    elim (Bool-cases (x == 0xB5 && y == 0x62)) [
      | inl here ↦ rw here ([], refl)
      | inr later ↦ rw later (x ∷ skipped, ap (◌∷◌ x) whole)
    ]

-- It is empty or begins with the sync characters.
pub search_sync_match :
    (buffer : Bytes)
    → (search_sync buffer ≡ []) ⊎ ((rest : Bytes) × (search_sync buffer ≡ 0xB5 ∷ 0x62 ∷ rest))
unfolding search_sync
search_sync_match [] = inl refl
search_sync_match (x ∷ []) = inl refl
search_sync_match (x ∷ y ∷ rest) = elim (Bool-cases (x == 0xB5 && y == 0x62)) [
  | inl here ↦ rw here (inr (rest, ground arith))
  | inr later ↦ rw later (search_sync_match (y ∷ rest))
]

pub search_sync_idem : (buffer : Bytes) → search_sync (search_sync buffer) ≡ search_sync buffer
search_sync_idem buffer = elim (search_sync_match buffer) [
  | inl e ↦ rw e (unfold search_sync in refl)
  | inr (rest, e) ↦ rw e (search_sync_here rest)
]

-- Bytes behind a match change nothing but what follows it.
pub search_sync-append :
    (buffer more : Bytes)
    → search_sync buffer ≢ []
    → search_sync (buffer ++ more) ≡ search_sync buffer ++ more
unfolding search_sync
search_sync-append [] more found = absurd (found refl)
search_sync-append (x ∷ []) more found = absurd (found refl)
search_sync-append (x ∷ y ∷ rest) more found = ground (arith, search_sync-append (y ∷ rest) more)

pub search_sync_gap :
    (gap rest : Bytes) → NoSync gap → search_sync (gap ++ 0xB5 ∷ 0x62 ∷ rest) ≡ 0xB5 ∷ 0x62 ∷ rest
unfolding search_sync
search_sync_gap [] rest none = refl
search_sync_gap (x ∷ []) rest none = ground arith
search_sync_gap (x ∷ y ∷ gap) rest none = ground (arith, search_sync_gap (y ∷ gap) rest)
