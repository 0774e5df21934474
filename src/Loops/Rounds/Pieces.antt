-- ===== src/Loops/Rounds/Pieces.antt =====
-- The pieces that the bytes of an F10T arrive in, for the loop of src/ublox/Run.cpp.
use gnsshat.Base.{
  ℕ, ◌+◌, ◌<◌, ◌≡◌, ◌≢◌, refl, ap, ◌∙◌, false, List, [], ◌∷◌, ◌++◌, length, length-append,
  append_assoc, append-nil, All, arith, leb, Bytes, ok, ◌>>=◌,
}
use gnsshat.Loops.Rounds.{RunLoop, f10t_execute, f10t_execute_all, parse_threshold}

-- The pieces one after the other, and `rest` behind them.
abbrev pub joined_with : List Bytes → Bytes → Bytes
joined_with [] rest = rest
joined_with (piece ∷ pieces) rest = piece ++ joined_with pieces rest

below : (n : ℕ) → n < 100 → leb parse_threshold n ≡ false
below n h = ground arith

-- Below the threshold, a read of something is only kept.
kept_piece :
    (loop : RunLoop) (piece : Bytes)
    → piece ≢ []
    → length (loop.kept ++ piece) < parse_threshold
    → f10t_execute loop piece ≡ ok (record loop { kept = loop.kept ++ piece })
unfolding f10t_execute
kept_piece loop [] some_bytes short = absurd (some_bytes refl)
kept_piece loop (b ∷ piece) some_bytes short =
    rw (below (length (loop.kept ++ b ∷ piece)) short) refl

-- A call depends on the bytes kept and read only by what they are together, once something is read.
same_buffer :
    (loop : RunLoop) (front last : Bytes)
    → last ≢ []
    → f10t_execute (record loop { kept = loop.kept ++ front }) last
      ≡ f10t_execute loop (front ++ last)
unfolding f10t_execute
same_buffer loop front [] some_bytes = absurd (some_bytes refl)
same_buffer loop [] (b ∷ last) some_bytes = rw (append-nil loop.kept) refl
same_buffer loop (a ∷ front) (b ∷ last) some_bytes =
    rw (append_assoc loop.kept (a ∷ front) (b ∷ last)) refl

joined-not_empty : (pieces : List Bytes) (last : Bytes) → last ≢ [] → joined_with pieces last ≢ []
joined-not_empty [] last k = k
joined-not_empty ([] ∷ pieces) last k = joined-not_empty pieces last k
joined-not_empty ((b ∷ piece) ∷ pieces) last k = λ e. absurd cc

-- However a burst is cut into reads of one byte or more, the pieces before the last one below the
-- threshold of 100 bytes together with what is kept, the loop of an F10T ends as if one read had
-- given the whole burst, whatever reads come later.
pub f10t_execute_all-joined :
    (loop : RunLoop) (pieces : List Bytes) (last : Bytes) (reads : List Bytes)
    → All (λ piece. piece ≢ []) pieces
    → last ≢ []
    → length loop.kept + length (joined_with pieces []) < parse_threshold
    → f10t_execute_all loop (pieces ++ last ∷ reads)
      ≡ f10t_execute_all loop (joined_with pieces last ∷ reads)
unfolding f10t_execute_all
f10t_execute_all-joined loop [] last reads h k short = refl
f10t_execute_all-joined loop (piece ∷ pieces) last reads (h, hs) k short =
    let next : RunLoop = record loop { kept = loop.kept ++ piece } in
    let fits : length (loop.kept ++ piece) < parse_threshold =
      omega (arith, length-append loop.kept piece, length-append piece (joined_with pieces [])) in
    let left : length next.kept + length (joined_with pieces []) < parse_threshold =
      omega (arith, length-append loop.kept piece, length-append piece (joined_with pieces [])) in
    rw (kept_piece loop piece h fits) (
      f10t_execute_all-joined next pieces last reads hs k left
      ∙ ap (λ r. r >>= λ after. f10t_execute_all after reads)
          (same_buffer loop piece (joined_with pieces last) (joined-not_empty pieces last k)))
