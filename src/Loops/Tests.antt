-- ===== src/Loops/Tests.antt =====
-- The two loops on concrete bytes.
use gnsshat.Base.{
  ℕ, zero, suc, ◌+◌, ◌<◌, ◌≡◌, refl, ap, true, [], ◌∷◌, inr, length, arith, Bytes, ok, read_le,
}
use gnsshat.Loops.{BaseLoop, execute_uart_base_all, uart_buff_size, m9n_execute}
use gnsshat.Loops.Room.{HasRoom, execute_uart_base_all-HasRoom}
use gnsshat.Loops.Stuck.{m9n_execute-IsUnfinished}
use gnsshat.Ubx.Frames.Search.{search_sync_here}

abbrev idle : BaseLoop
idle = record { store = record { frames = []; incoming_frames = [] }; kept = [] }

idle-HasRoom : HasRoom idle
idle-HasRoom = (tt, omega arith)

execute_uart_base_all-HasRoom_example :
    (next : BaseLoop) × (execute_uart_base_all
        (λ i. true)
        idle
        ((0xD3 ∷ []) ∷ [] ∷ (0x03 ∷ []) ∷ [])
      ≡ ok next)
    × HasRoom next
    × (length next.kept + 1000 < uart_buff_size)
execute_uart_base_all-HasRoom_example =
    execute_uart_base_all-HasRoom (λ i. true) idle ((0xD3 ∷ []) ∷ [] ∷ (0x03 ∷ []) ∷ [])
      idle-HasRoom ((omega arith, tt), (tt, ((omega arith, tt), tt)))

abbrev zeros : ℕ → Bytes
zeros zero = []
zeros (suc n) = 0 ∷ zeros n

length-zeros : (n : ℕ) → length (zeros n) ≡ n
length-zeros zero = refl
length-zeros (suc n) = ap suc (length-zeros n)

-- The start of a frame that announces 65535 bytes of payload, with 7169 bytes after it.
abbrev corrupted : Bytes
corrupted = 0xB5 ∷ 0x62 ∷ 0x01 ∷ 0x07 ∷ 0xFF ∷ 0xFF ∷ zeros 7169

m9n_execute-IsUnfinished_example :
    m9n_execute (λ i. zeros 1024) corrupted
    ≡ ok (record { frames = []; unfinished = corrupted }, true)
m9n_execute-IsUnfinished_example =
    m9n_execute-IsUnfinished (λ i. zeros 1024) corrupted
      (search_sync_here (0x01 ∷ 0x07 ∷ 0xFF ∷ 0xFF ∷ zeros 7169))
      (inr (65535, unfold read_le in refl, omega (arith, length-zeros 7169)))
      (omega (arith, length-zeros 7169))
