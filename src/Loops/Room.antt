-- ===== src/Loops/Room.antt =====
-- Room for the next read in the loop of an RTK base, src/ublox/Run.cpp.
use gnsshat.Base.{
  ℕ, ◌+◌, ◌*◌, ◌%◌, ◌≤◌, ◌<◌, ◌≡◌, refl, inl, inr, Bool, List, [], ◌∷◌, ◌++◌, length, All, arith,
  Bytes, AreBytes, ok,
}
use mathlib.Core.Path.{subst}
use gnsshat.Loops.{BaseLoop, execute_uart_base, execute_uart_base_all, uart_buff_size}
use gnsshat.Rtcm3.Parser.{read_length, max_number_of_rtcm3_frames}
use gnsshat.Rtcm3.Parser.Rounds.{IsPartial}
use gnsshat.Rtcm3.Parser.Sound.{extract_rtcm3_frames-IsExtraction}
use gnsshat.Rtcm3.Store.{Rtcm3Store, parse_frame, parse_frames, parse, update_frame}
use gnsshat.Rtcm3.Store.Latest.{get_frame_id_ok}

bytes_suffix : (front part : Bytes) → AreBytes (front ++ part) → AreBytes part
bytes_suffix [] part h = h
bytes_suffix (x ∷ front) part (_, hs) = bytes_suffix front part hs

bytes_join : (front part : Bytes) → AreBytes front → AreBytes part → AreBytes (front ++ part)
bytes_join [] part h k = k
bytes_join (x ∷ front) part (h, hs) k = (h, bytes_join front part hs k)

-- A length field holds ten bits.
read_length_le : (frame : Bytes) (n : ℕ) → AreBytes frame → read_length frame ≡ ok n → n ≤ 1023
unfolding read_length
read_length_le [] n h e = absurd cc
read_length_le (a ∷ []) n h e = absurd cc
read_length_le (a ∷ b ∷ []) n h e = absurd cc
read_length_le (a ∷ b ∷ c ∷ rest) n (_, (hb, (hc, _))) e =
    let k : b % 4 * 256 + c ≡ n = cc in omega arith

partial_length : (found : Bytes) → AreBytes found → IsPartial found → length found ≤ 1028
partial_length found h (inl short) = omega arith
partial_length found h (inr (n, e, cut)) = omega (arith, read_length_le found n h e)

parse_frames_ok :
    (acquired : ℕ → Bool) (index : ℕ) (store : Rtcm3Store) (frames : List Bytes)
    → (next : Rtcm3Store) × (parse_frames acquired index store frames ≡ ok next)
unfolding parse_frames parse_frame
parse_frames_ok acquired index store [] = (store, refl)
parse_frames_ok acquired index store ([] ∷ frames) =
    parse_frames_ok acquired (index + 1) store frames
parse_frames_ok acquired index store ((b ∷ frame) ∷ frames) =
    let (id, e) = get_frame_id_ok (b ∷ frame) in
    let (next, f) =
      parse_frames_ok acquired (index + 1) (update_frame (acquired index) store id (b ∷ frame))
        frames in
    (next, rw (e) f)

-- The bytes that are kept are bytes, and 1028 of them at most.
abbrev pub HasRoom : BaseLoop → Type 0
HasRoom loop = AreBytes loop.kept × (length loop.kept ≤ 1028)

execute_uart_base-HasRoom :
    (acquired : ℕ → Bool) (loop : BaseLoop) (incoming : Bytes)
    → HasRoom loop
    → AreBytes incoming
    → (next : BaseLoop) × (execute_uart_base acquired loop incoming ≡ ok next) × HasRoom next
unfolding execute_uart_base parse
execute_uart_base-HasRoom acquired loop [] h k = (loop, refl, h)
execute_uart_base-HasRoom acquired loop (b ∷ incoming) (hs, _) k =
    let buffer = loop.kept ++ b ∷ incoming in
    let (extracted, e, sound) =
      extract_rtcm3_frames-IsExtraction max_number_of_rtcm3_frames buffer in
    let (store, f) = parse_frames_ok acquired 0 loop.store extracted.frames in
    let (front, whole) = sound.unfinished_suffix in
    let bytes =
      bytes_suffix front extracted.unfinished
        (subst AreBytes whole (bytes_join loop.kept (b ∷ incoming) hs k)) in
    (
      record { store = store; kept = extracted.unfinished },
      rw (e, f) refl,
      (bytes, partial_length extracted.unfinished bytes sound.unfinished_part),
    )

-- Whatever bytes are read, in whatever pieces, and whether or not the guard is taken in time, the
-- loop of an RTK base goes on, and the bytes that it keeps leave room in its buffer for more than a
-- thousand bytes of the next read.
pub execute_uart_base_all-HasRoom :
    (acquired : ℕ → Bool) (loop : BaseLoop) (reads : List Bytes)
    → HasRoom loop
    → All AreBytes reads
    → (next : BaseLoop) × (execute_uart_base_all acquired loop reads ≡ ok next)
      × HasRoom next
      × (length next.kept + 1000 < uart_buff_size)
unfolding execute_uart_base_all
execute_uart_base_all-HasRoom acquired loop [] (h, room) k = (loop, refl, (h, room), omega arith)
execute_uart_base_all-HasRoom acquired loop (incoming ∷ reads) h (k, ks) =
    let (step, e, room) = execute_uart_base-HasRoom acquired loop incoming h k in
    let (next, f, later, free) = execute_uart_base_all-HasRoom acquired step reads room ks in
    (next, rw (e) f, later, free)
