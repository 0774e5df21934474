-- ===== src/Loops/Rounds.antt =====
-- `M9NRun::execute` and `F10TRun::execute` of src/ublox/Run.cpp as a whole: what is read, parsed and
-- kept, and when the navigation notifier is called. What the driver reads is an input; a read of
-- nothing is a timeout or an error.
pub mod Pieces
mod Tests
use gnsshat.Base.{
  ℕ, suc, ◌+◌, Bool, true, false, ◌&&◌, ◌||◌, [], ◌∷◌, ◌++◌, List, ltb, leb, if◌then◌else◌, length,
  Bytes, Result, ok, ◌>>=◌,
}
use gnsshat.Dispatch.Parse.{Receiver, run_frames, parse_buffer, consume_navigation_epoch}
use gnsshat.Loops.{m9n_execute}

-- The state that the parser changes, the bytes of `runRxBuff_` up to `runRxBuffOffset_`, and how
-- often the navigation notifier was called.
pub record RunLoop : Type 0 where
  pub receiver : Receiver
  pub kept : Bytes
  pub notifications : ℕ

-- The end of a round, after `parse`.
abbrev pub finish : RunLoop → Receiver → Bytes → RunLoop
finish loop receiver unfinished =
    let (seen, consumed) = consume_navigation_epoch receiver in
    record {
      receiver = consumed;
      kept = unfinished;
      notifications = if seen then suc loop.notifications else loop.notifications;
    }

pub record M9nLoop : Type 0 where
  pub loop : RunLoop
  pub more_data_pending : Bool

-- One call; `woken` is what `wait` of the TX-READY notifier returns.
unfoldable pub m9n_round : Bool → (ℕ → Bytes) → M9nLoop → Result M9nLoop
m9n_round woken driver state =
    let pass : Result M9nLoop = (do
      (extracted, more) ← m9n_execute driver state.loop.kept
      receiver ← run_frames state.loop.receiver extracted.frames
      let after = finish state.loop receiver extracted.unfinished
      ok (record { loop = after; more_data_pending = more })) in
    if woken || state.more_data_pending then pass else ok state

abbrev pub parse_threshold : ℕ
parse_threshold = 100

abbrev pub is_empty : Bytes → Bool
is_empty [] = true
is_empty (b ∷ bytes) = false

abbrev pub should_parse : Bytes → Bytes → Bool
should_parse incoming buffer =
    leb parse_threshold (length buffer) || (is_empty incoming && ltb 0 (length buffer))

-- One call of `F10TRun::execute` with the bytes that `epoll` gave.
unfoldable pub f10t_execute : RunLoop → Bytes → Result RunLoop
f10t_execute loop incoming =
    let buffer = loop.kept ++ incoming in
    let pass : Result RunLoop = (do
      (receiver, unfinished) ← parse_buffer loop.receiver buffer
      ok (finish loop receiver unfinished)) in
    if should_parse incoming buffer then pass else ok (record loop { kept = buffer })

-- The calls of the thread, one for each read.
unfoldable pub f10t_execute_all : RunLoop → List Bytes → Result RunLoop
f10t_execute_all loop [] = ok loop
f10t_execute_all loop (incoming ∷ reads) =
    f10t_execute loop incoming >>= λ next. f10t_execute_all next reads
