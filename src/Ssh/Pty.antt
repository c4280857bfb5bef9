-- ===== src/Ssh/Pty.antt =====
-- Running a command under a terminal (src/ssh/ssh2_client.rs, `pty_collect_loop`): the password is
-- written once, when its prompt waits, and the input is closed. A turn of the loop is what the
-- clock and the channel answer in it; the pause of a turn without progress has no state. How the
-- standard library reads bytes as text (`from_utf8_lossy`) is a parameter.
pub mod Exchange
pub mod Waiting
use sshw.Base.{
  ℕ, Bool, true, false, not, ◌&&◌, ◌||◌, Text, codes, List, [], ◌∷◌, ◌++◌, leb, if◌then◌else◌,
}
use sshw.Errors.{ssh, context, says, Error, Result, err, ok, and_then, app_error, ◌>>=◌, ◌>>◌}
use sshw.Ssh.Channel.{
  Bytes, ReadEvent, read, would_block, read_failed, session_error, append_output_bounded,
}
use sshw.Ssh.Framing.{contains_subslice, output_has_password_prompt}

-- What the loop writes: the password with its newline, the terminal's end of file and the flush
-- behind it, and the end of the channel's input.
pub data Sent : Type 0 where
  password_line veof eof : Sent

-- What one turn is answered: `deadline.remaining()`, the read, each call of the input exchange,
-- and the milliseconds since the loop began.
pub record PtyTurn : Type 0 where
  pub deadline : Result (Unit {0})
  pub read_event : ReadEvent
  pub apply_before : Result (Unit {0})
  pub write_password : Result (Unit {0})
  pub write_veof : Result (Unit {0})
  pub apply_between : Result (Unit {0})
  pub send_eof : Result (Unit {0})
  pub elapsed : ℕ

-- The variables of the loop, and what it has written so far.
pub record Collected : Type 0 where
  pub out : Bytes
  pub injected : Bool
  pub input_closed : Bool
  pub command_started : Bool
  pub sent : List Sent

abbrev pub nothing_collected : Collected
nothing_collected = record {
  out = [];
  injected = false;
  input_closed = false;
  command_started = false;
  sent = [];
}

-- `PROMPT_WAIT`, in milliseconds.
abbrev pub prompt_wait : ℕ
prompt_wait = 30000

abbrev prompt_timeout : Error
prompt_timeout =
    app_error ssh
      (says (codes "ssh session timed out waiting for the su password prompt or output"))

-- One write of the exchange: what is written stands in `sent` if the call was made.
abbrev pub write : Sent → Result (Unit {0}) → Collected → Collected × Result (Unit {0})
write what answer s = (record s { sent = s.sent ++ what ∷ [] }, answer)

-- The closure of the exchange.
unfoldable pub exchange : Bool → PtyTurn → Collected → Collected × Result (Unit {0})
exchange should_inject turn s =
    and_then (s, turn.apply_before)
      (λ done s.
        and_then (if should_inject then write password_line turn.write_password s else (s, ok tt))
          (λ done s.
            and_then (write veof turn.write_veof s)
              (λ done s. and_then (s, turn.apply_between) (λ done s. write eof turn.send_eof s))))

-- A turn ends the loop at the end of the stream, or goes on, or fails.
pub data Next : Type 0 where
  next_turn : Collected → Next
  break : Collected → Next
  fail : Collected → Error → Next

unfoldable pub after_exchange : PtyTurn → Collected × Result (Unit {0}) → Next
after_exchange turn (s, err e) = fail s e
after_exchange turn (s, ok done) =
    if not s.command_started && leb prompt_wait turn.elapsed
    then fail s prompt_timeout
    else next_turn s

abbrev pub closed_by : Bool → Collected × Result (Unit {0}) → Collected × Result (Unit {0})
closed_by should_inject (s, err e) = (s, err e)
closed_by should_inject (s, ok done) =
    (record s { injected = s.injected || should_inject; input_closed = true }, ok tt)

-- A run waits for another turn, or its loop has ended.
pub data PtyRun : Type 0 where
  waiting : Collected → PtyRun
  ended : Collected → Result (Unit {0}) → PtyRun

module _ (decode : Bytes → Text) (begin_marker : Bytes) (output_limit : ℕ) where
  unfoldable pub should_inject : Collected → Bool
  unfolding output_has_password_prompt
  should_inject s =
      not s.injected && not s.command_started && output_has_password_prompt (decode s.out)

  -- The part of a turn behind the read.
  unfoldable pub react : PtyTurn → Collected → Next
  unfolding exchange after_exchange should_inject
  react turn s = after_exchange turn (
      if not s.input_closed && (should_inject s || s.command_started)
      then closed_by (should_inject s) (exchange (should_inject s) turn s)
      else (s, ok tt))

  unfoldable pub see_marker : Collected → Collected
  unfolding contains_subslice
  see_marker s =
      if not s.command_started && contains_subslice s.out begin_marker
      then record s { command_started = true }
      else s

  unfoldable pub read_appended : PtyTurn → Collected → Result Bytes → Next
  unfolding react see_marker
  read_appended turn s (err e) = fail s e
  read_appended turn s (ok out) = react turn (see_marker (record s { out = out }))

  unfoldable pub on_read : PtyTurn → Collected → ReadEvent → Next
  unfolding read_appended append_output_bounded session_error
  on_read turn s (read []) = break s
  on_read turn s (read (b ∷ bytes)) =
      read_appended turn s (append_output_bounded s.out (b ∷ bytes) 0 output_limit)
  on_read turn s would_block = react turn (see_marker s)
  on_read turn s (read_failed e) = fail s (session_error e)

  unfoldable pub pty_turn : PtyTurn → Collected → Next
  unfolding on_read
  pty_turn turn s = elim turn.deadline [
    | err e ↦ fail s e
    | ok done ↦ on_read turn s turn.read_event
  ]

  unfoldable pub pty_collect_loop : List PtyTurn → Collected → PtyRun
  unfolding pty_turn
  pty_collect_loop [] s = waiting s
  pty_collect_loop (turn ∷ turns) s = elim (pty_turn turn s) [
    | next_turn s ↦ pty_collect_loop turns s
    | break s ↦ ended s (ok tt)
    | fail s e ↦ ended s (err e)
  ]
