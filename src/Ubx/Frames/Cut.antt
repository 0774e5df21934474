-- ===== src/Ubx/Frames/Cut.antt =====
-- A frame that is cut behind its first byte, in `extractFrames` of src/ublox/UbxParser.cpp.
use gnsshat.Base.{
  ℕ, zero, suc, ◌≡◌, refl, sym, ap, ◌∙◌, inl, [], ◌∷◌, ◌++◌, append-nil, arith, Bytes, ok,
}
use gnsshat.Ubx.Frames.{search_sync, extract_frames}
use gnsshat.Ubx.Frames.Search.{NoSync}
use gnsshat.Ubx.Frames.Sound.{IsFrame, no_slots, round_stopped}
use gnsshat.Ubx.Frames.Stream.{prepend, extract_frame_step}

-- Without a match nothing is extracted and nothing is kept.
extract_frames_silent :
    (slots : ℕ) (buffer : Bytes)
    → search_sync buffer ≡ []
    → extract_frames slots buffer ≡ ok (record { frames = []; unfinished = [] })
extract_frames_silent zero buffer silent = no_slots buffer
extract_frames_silent (suc slots) buffer silent =
    round_stopped slots buffer (rw silent (inl (omega arith)))
    ∙ ap (λ bs. ok (record { frames = []; unfinished = bs })) silent

-- A frame that arrives whole is extracted; if a read ends behind its first byte, that byte is not
-- kept as unfinished, and neither read gives a frame: it is lost. The frame holds no other sync
-- characters, and noise may stand before it.
pub extract_frames_cut :
    (slots : ℕ) (gap rest : Bytes)
    → NoSync gap
    → IsFrame (0xB5 ∷ rest)
    → search_sync rest ≡ []
    → (extract_frames (suc slots) (gap ++ 0xB5 ∷ rest)
        ≡ ok (record { frames = (0xB5 ∷ rest) ∷ []; unfinished = [] }))
      × (extract_frames (suc slots) (gap ++ 0xB5 ∷ [])
          ≡ ok (record { frames = []; unfinished = [] }))
      × (extract_frames (suc slots) rest ≡ ok (record { frames = []; unfinished = [] }))
extract_frames_cut slots gap rest quiet whole silent = (
  ap (extract_frames (suc slots)) (sym (append-nil (gap ++ 0xB5 ∷ rest)))
      ∙ extract_frame_step slots gap (0xB5 ∷ rest) [] quiet whole
      ∙ ap (prepend ((0xB5 ∷ rest) ∷ []))
          (extract_frames_silent slots [] (unfold search_sync in refl)),
  extract_frames_silent (suc slots) (gap ++ 0xB5 ∷ []) quiet,
  extract_frames_silent (suc slots) rest silent,
)
