-- ===== src/Loops.antt =====
-- The buffers of the receive loops of src/ublox/Run.cpp: `F9PRun::executeUartBase` for RTCM3 and
-- `M9NRun::execute` for UBX. What the driver reads is an input.
pub mod Room
pub mod Stuck
pub mod Rounds
mod Tests
use gnsshat.Base.{
  ℕ, zero, suc, ◌+◌, Bool, true, false, ◌&&◌, List, [], ◌∷◌, ◌++◌, ◌==◌, ltb, if◌then◌else◌, length,
  Bytes, Result, ok, ◌>>=◌,
}
use gnsshat.Rtcm3.Store.{Rtcm3Store, parse}
use gnsshat.Ubx.Frames.{Extracted, extract_frames, max_number_of_frames}

abbrev pub uart_buff_size : ℕ
uart_buff_size = 2048

-- The store, and the bytes of `uartBuff_` up to `uartBuffOffset_`.
pub record BaseLoop : Type 0 where
  pub store : Rtcm3Store
  pub kept : Bytes

-- One call with the bytes that `epoll` gave; none after a timeout or an error.
unfoldable pub execute_uart_base : (ℕ → Bool) → BaseLoop → Bytes → Result BaseLoop
execute_uart_base acquired loop [] = ok loop
execute_uart_base acquired loop (b ∷ incoming) = do
  (next, unfinished) ← parse acquired loop.store (loop.kept ++ b ∷ incoming)
  ok (record { store = next; kept = unfinished })

-- The calls of the thread, one for each read.
unfoldable pub execute_uart_base_all : (ℕ → Bool) → BaseLoop → List Bytes → Result BaseLoop
execute_uart_base_all acquired loop [] = ok loop
execute_uart_base_all acquired loop (incoming ∷ reads) =
    execute_uart_base acquired loop incoming >>= λ next. execute_uart_base_all acquired next reads

abbrev pub run_rx_buff_size : ℕ
run_rx_buff_size = 8192

abbrev pub rx_batch_size : ℕ
rx_batch_size = 1024

abbrev pub all_ff : Bytes → Bool
all_ff [] = true
all_ff (b ∷ bytes) = (b == 0xFF) && all_ff bytes

-- The `while` loop that fills the buffer by batches, the one with number `i` next: the bytes up to
-- `counter`, and whether the module has no more.
unfoldable pub fill : ℕ → (ℕ → Bytes) → Bytes → ℕ → Bytes × Bool
fill zero driver buffer i = (buffer, false)
fill (suc fuel) driver buffer i =
    let more = fill fuel driver (buffer ++ driver i) (i + 1) in
    if ltb run_rx_buff_size (length buffer + rx_batch_size)
    then (buffer, false)
    else if all_ff (driver i)
    then (buffer, true)
    else more

-- One call once there is data: the frames that are dispatched, the bytes that stay at the start of
-- the buffer, and `moreDataPending_`. Eight batches fill the buffer.
unfoldable pub m9n_execute : (ℕ → Bytes) → Bytes → Result (Extracted × Bool)
m9n_execute driver kept = do
  let (buffer, drained) = fill 9 driver kept 0
  extracted ← extract_frames max_number_of_frames buffer
  ok (extracted, if drained then false else true)
