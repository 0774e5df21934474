-- ===== src/Rtcm3/Tests.antt =====
-- Runs of the RTCM3 parser and store on a frame with message number 1005, and the theorems applied
-- to them.
use gnsshat.Base.{
  ℕ, ◌*◌, ◌^◌, ◌≡◌, refl, true, none, [], ◌∷◌, ◌++◌, drop, arith, Bytes, ok, read_at,
}
use gnsshat.Rtcm3.Crc.{crc_table, crc24q, crc_loop, xor}
use gnsshat.Rtcm3.Crc.Table.{divide, crc_table_lem}
use gnsshat.Rtcm3.Parser.{
  find_preamble, read_length, received_crc, compare_crc, check_rtcm3_frame, keep_rtcm3_frame,
  extract_rtcm3_at, extract_rtcm3_frames, get_frame_id, max_number_of_rtcm3_frames,
}
use gnsshat.Rtcm3.Parser.Resume.{extract_rtcm3_frames-append}
use gnsshat.Rtcm3.Parser.Sound.{IsExtraction, extract_rtcm3_frames-IsExtraction}
use gnsshat.Rtcm3.Store.{Rtcm3Store, get_frame, parse}
use gnsshat.Rtcm3.Store.Latest.{latest, parse-latest}
use gnsshat.Settings.{value_or_empty}
use gnsshat.Ubx.Frames.{Extracted}
use gnsshat.Ubx.Frames.Stream.{prepend}

abbrev station : Bytes
station = 0xD3 ∷ 0x00 ∷ 0x02 ∷ 0x3E ∷ 0xD0 ∷ 0xA4 ∷ 0xE0 ∷ 0x00 ∷ []

accepted : check_rtcm3_frame station ≡ ok true
unfolding check_rtcm3_frame compare_crc received_crc read_length crc24q crc_loop xor
accepted = refl

numbered : get_frame_id station ≡ ok 1005
unfolding get_frame_id
numbered = refl

-- A read that ends behind the preamble of the second frame.
abbrev first_read : Bytes
first_read = station ++ 0xD3 ∷ []

abbrev second_read : Bytes
second_read = drop 1 station

abbrev after_first : Extracted
after_first = record { frames = station ∷ []; unfinished = 0xD3 ∷ [] }

first_extracted : extract_rtcm3_frames 30 first_read ≡ ok after_first
unfolding extract_rtcm3_frames extract_rtcm3_at keep_rtcm3_frame find_preamble check_rtcm3_frame
    compare_crc received_crc read_length crc24q crc_loop xor
first_extracted = refl

extract_rtcm3_frames-append_example :
    extract_rtcm3_frames 30 (first_read ++ second_read)
    ≡ prepend (station ∷ []) (extract_rtcm3_frames 29 ((0xD3 ∷ []) ++ second_read))
extract_rtcm3_frames-append_example =
    extract_rtcm3_frames-append 30 first_read second_read after_first first_extracted (omega arith)

extract_rtcm3_frames-IsExtraction_example :
    (result : Extracted) × (extract_rtcm3_frames 30 first_read ≡ ok result)
    × IsExtraction 30 first_read result
extract_rtcm3_frames-IsExtraction_example = extract_rtcm3_frames-IsExtraction 30 first_read

crc_table_lem_example : read_at crc_table 211 ≡ ok (divide 8 (211 * 2 ^ 16))
crc_table_lem_example = crc_table_lem 211 (omega arith)

abbrev no_frames : Rtcm3Store
no_frames = record { frames = []; incoming_frames = [] }

parse-latest_example :
    (extracted : Extracted) × (next : Rtcm3Store) × (extract_rtcm3_frames max_number_of_rtcm3_frames
        first_read
      ≡ ok extracted)
    × (parse (λ i. true) no_frames first_read ≡ ok (next, extracted.unfinished))
    × ((id : ℕ) → get_frame true next id ≡ value_or_empty (latest extracted.frames id none))
parse-latest_example = parse-latest (λ i. true) no_frames first_read (λ i. refl)
