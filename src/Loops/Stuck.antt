-- ===== src/Loops/Stuck.antt =====
-- A frame that the buffer cannot hold, in the loop of src/ublox/Run.cpp.
use gnsshat.Base.{ℕ, ◌+◌, ◌<◌, ◌≡◌, refl, true, [], lt→ltb, length, Bytes, ok}
use mathlib.Core.Path.{subst, sym}
use gnsshat.Loops.{fill, m9n_execute, run_rx_buff_size, rx_batch_size}
use gnsshat.Ubx.Frames.{search_sync, extract_frames}
use gnsshat.Ubx.Frames.Rounds.{IsUnfinished}
use gnsshat.Ubx.Frames.Sound.{round_stopped}

-- Once the bytes kept hold the start of a frame that is not whole, and leave no room for a batch,
-- no call reads from the driver any more, dispatches a frame or drops a byte: the next call finds
-- the same bytes, whatever the receiver has to say.
pub m9n_execute-IsUnfinished :
    (driver : ℕ → Bytes) (kept : Bytes)
    → search_sync kept ≡ kept
    → IsUnfinished kept
    → run_rx_buff_size < length kept + rx_batch_size
    → m9n_execute driver kept ≡ ok (record { frames = []; unfinished = kept }, true)
unfolding m9n_execute fill
m9n_execute-IsUnfinished driver kept start part full =
    let stopped : extract_frames 300 kept
        ≡ ok (record { frames = []; unfinished = search_sync kept }) =
      round_stopped 299 kept (subst IsUnfinished (sym start) part) in
    rw (lt→ltb run_rx_buff_size (length kept + rx_batch_size) full, stopped, start) refl
