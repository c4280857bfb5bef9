-- ===== src/Ssh/Drain.antt =====
-- Reading a channel's two output streams in turn (src/ssh/ssh2_client.rs, `drain_both_streams` and
-- `read_channel_outputs`). A turn of the loop is what the clock, the channel and the sink answer
-- in it; a run is a list of turns. The pause of a turn without progress has no state.
pub mod Parts
pub mod Bounded
pub mod Delivered
pub mod Ends
pub mod Exact
pub mod Shown
use sshw.Base.{
  ℕ, Bool, true, false, ◌&&◌, Text, codes, List, [], ◌∷◌, ◌++◌, Option, none, some, length,
  if◌then◌else◌,
}
use sshw.Errors.{Error, Result, err, ok, and_then, partial_run}
use sshw.Ssh.Channel.{
  Bytes, ReadEvent, read, would_block, read_failed, session_error, append_output_bounded,
}

-- `OutputStream` of src/ssh/mod.rs.
pub data OutputStream : Type 0 where
  stdout stderr : OutputStream

-- What one turn of the loop is answered: `deadline.remaining()`, the two reads, and the sink's
-- result for the bytes of each.
pub record Turn : Type 0 where
  pub deadline : Result (Unit {0})
  pub stdout_read : ReadEvent
  pub stdout_sink : Result (Unit {0})
  pub stderr_read : ReadEvent
  pub stderr_sink : Result (Unit {0})

-- The variables of the loop, and what the sink was given.
pub record Drained : Type 0 where
  pub out : Bytes
  pub err : Bytes
  pub out_done : Bool
  pub err_done : Bool
  pub shown : List (OutputStream × Bytes)

abbrev pub nothing_read : Drained
nothing_read = record { out = []; err = []; out_done = false; err_done = false; shown = [] }

module _ (output_limit : ℕ) (has_sink : Bool) where
  -- What is done with the bytes once they were appended, or refused.
  unfoldable pub stdout_taken :
      Bytes → Result (Unit {0}) → Drained → Result Bytes → Drained × Result (Unit {0})
  stdout_taken bytes sink s (err e) = (s, err e)
  stdout_taken bytes sink s (ok out) =
      if has_sink
      then (record s { out = out; shown = s.shown ++ (stdout, bytes) ∷ [] }, sink)
      else (record s { out = out }, ok tt)

  unfoldable pub stderr_taken :
      Bytes → Result (Unit {0}) → Drained → Result Bytes → Drained × Result (Unit {0})
  stderr_taken bytes sink s (err e) = (s, err e)
  stderr_taken bytes sink s (ok text) =
      if has_sink
      then (record s { err = text; shown = s.shown ++ (stderr, bytes) ∷ [] }, sink)
      else (record s { err = text }, ok tt)

  unfoldable pub on_stdout : ReadEvent → Result (Unit {0}) → Drained → Drained × Result (Unit {0})
  unfolding append_output_bounded stdout_taken session_error
  on_stdout (read []) sink s = (record s { out_done = true }, ok tt)
  on_stdout (read (b ∷ bytes)) sink s =
      stdout_taken (b ∷ bytes) sink s
        (append_output_bounded s.out (b ∷ bytes) (length s.err) output_limit)
  on_stdout would_block sink s = (s, ok tt)
  on_stdout (read_failed e) sink s = (s, err (session_error e))

  unfoldable pub on_stderr : ReadEvent → Result (Unit {0}) → Drained → Drained × Result (Unit {0})
  unfolding append_output_bounded stderr_taken session_error
  on_stderr (read []) sink s = (record s { err_done = true }, ok tt)
  on_stderr (read (b ∷ bytes)) sink s =
      stderr_taken (b ∷ bytes) sink s
        (append_output_bounded s.err (b ∷ bytes) (length s.out) output_limit)
  on_stderr would_block sink s = (s, ok tt)
  on_stderr (read_failed e) sink s = (s, err (session_error e))

  -- A stream that has ended is not read again.
  abbrev pub visit_stdout : Turn → Drained → Drained × Result (Unit {0})
  visit_stdout turn s =
      if s.out_done then (s, ok tt) else on_stdout turn.stdout_read turn.stdout_sink s

  abbrev pub visit_stderr : Turn → Drained → Drained × Result (Unit {0})
  visit_stderr turn s =
      if s.err_done then (s, ok tt) else on_stderr turn.stderr_read turn.stderr_sink s

  -- The body of the loop.
  unfoldable pub drain_turn : Turn → Drained → Drained × Result (Unit {0})
  unfolding on_stdout on_stderr
  drain_turn turn s =
      and_then (s, turn.deadline)
        (λ done s. and_then (visit_stdout turn s) (λ done. visit_stderr turn))

-- How far a run has come: it waits for another turn, or its loop has ended.
pub data DrainRun : Type 0 where
  draining : Drained → DrainRun
  drained : Drained → Result (Unit {0}) → DrainRun

module _ (output_limit : ℕ) (has_sink : Bool) where
  unfoldable pub drain_loop : List Turn → Drained → DrainRun
  unfolding drain_turn
  drain_loop [] s = if s.out_done && s.err_done then drained s (ok tt) else draining s
  drain_loop (turn ∷ turns) s =
      let (next, outcome) = drain_turn output_limit has_sink turn s in
      let rest = drain_loop turns next in
      if s.out_done && s.err_done
      then drained s (ok tt)
      else elim outcome [ err e ↦ drained next (err e) | ok done ↦ rest ]

-- The result of `drain_both_streams`: both outputs, or a `PartialRunError` with what was read, as
-- text.
pub data Outputs : Type 0 where
  complete : Bytes → Bytes → Outputs
  partial : Error → Text → Text → Outputs

-- `decode` is `decode_remote_output_lossy`, the lossy reading of bytes as UTF-8 by the standard
-- library.
abbrev pub outcome : (Bytes → Text) → DrainRun → Option Outputs
outcome decode (draining s) = none
outcome decode (drained s (ok done)) = some (complete s.out s.err)
outcome decode (drained s (err e)) = some (partial (partial_run ∷ e) (decode s.out) (decode s.err))

unfoldable pub drain_both_streams : (Bytes → Text) → ℕ → Bool → List Turn → Option Outputs
unfolding drain_loop
drain_both_streams decode output_limit has_sink turns =
    outcome decode (drain_loop output_limit has_sink turns nothing_read)
