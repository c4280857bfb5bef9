-- ===== src/Ssh/Transfer.antt =====
-- Sending a file (src/ssh/ssh2_client.rs, `copy_file_with_deadline`, the end of `put_inner`, and
-- `validate_scp_completion`). A turn of a loop is what the clock, the file and the channel answer
-- in it; a read is given how many bytes it may return.
pub mod Whole
use sshw.Base.{
  ℕ, zero, suc, ◌+◌, ◌-◌, Bool, true, false, Text, codes, List, [], ◌∷◌, ◌++◌, Option, none, some,
  length, ltb, ◌==◌, not, if◌then◌else◌, is_empty,
}
use sshw.Errors.{
  ErrorKind, ssh, io, says, context, message, Error, Result, ok, err, map_err, app_error, ◌>>=◌,
  ◌>>◌, classified_error, with_error_kind,
}
use sshw.Config.{plain_error}
use sshw.Ssh.Channel.{Bytes}

-- One write to the channel: `deadline.apply`, and the number of bytes that were taken.
pub record WriteTurn : Type 0 where
  pub deadline : Result (Unit {0})
  pub write : Result ℕ

-- One turn of the outer loop: `deadline.apply`, the read, and the writes of what was read.
pub record CopyTurn : Type 0 where
  pub deadline : Result (Unit {0})
  pub read : ℕ → Result Bytes
  pub writes : List WriteTurn

-- A loop waits for another turn, or ends; `sent` is what the channel has taken.
pub data Copying (T : Type 0) : Type 0 where
  copying : Bytes → Copying T
  copied : Bytes → T → Copying T
  failed : Bytes → Error → Copying T

unfoldable pub take : ℕ → Bytes → Bytes
take zero bytes = []
take (suc n) [] = []
take (suc n) (b ∷ bytes) = b ∷ take n bytes

unfoldable pub drop : ℕ → Bytes → Bytes
drop zero bytes = bytes
drop (suc n) [] = []
drop (suc n) (b ∷ bytes) = drop n bytes

abbrev transfer_error : Error → Error
transfer_error e = with_error_kind ssh (context (says (codes "ssh transfer error")) ∷ e)

abbrev write_zero : Error
write_zero = classified_error ssh (
    context (says (codes "ssh transfer error"))
    ∷ message (says (codes "failed to write the complete local file to the SSH channel"))
    ∷ [])

-- How a loop reports a passed deadline, a failed write, and a write of nothing.
pub record Reports : Type 0 where
  pub late : Error → Error
  pub unwritten : Error → Error
  pub nothing_taken : Error

-- The inner loop, on the bytes of the buffer that are still to be written.
unfoldable pub write_chunk : Reports → List WriteTurn → Bytes → Bytes → Copying (Unit {0})
unfolding take drop
write_chunk reports turns [] sent = copied sent tt
write_chunk reports [] (b ∷ bytes) sent = copying sent
write_chunk reports (turn ∷ turns) (b ∷ bytes) sent = elim (turn.deadline) [
  | err e ↦ failed sent (reports.late e)
  | ok u ↦ elim (turn.write) [
    | err e ↦ failed sent (reports.unwritten e)
    | ok zero ↦ failed sent reports.nothing_taken
    | ok (suc n) ↦
        write_chunk reports turns (drop (suc n) (b ∷ bytes)) (sent ++ take (suc n) (b ∷ bytes))
  ]
]

abbrev pub buffer_size : ℕ
buffer_size = 32768

abbrev pub min : ℕ → ℕ → ℕ
min a b = if ltb a b then a else b

-- What the outer loop does with the outcome of the writes.
abbrev pub after_chunk : Copying (Unit {0}) → (Bytes → Copying ℕ) → Copying ℕ
after_chunk (copying sent) next = copying sent
after_chunk (failed sent e) next = failed sent e
after_chunk (copied sent u) next = next sent

-- The outer loop; the result is the number of bytes that were copied. What it ends with at the end
-- of the file is an argument.
unfoldable pub copy_loop :
    Reports → (Bytes → ℕ → Copying ℕ) → ℕ → List CopyTurn → ℕ → Bytes → Copying ℕ
unfolding write_chunk with_error_kind
copy_loop reports at_end expected [] done sent =
    if ltb done expected then copying sent else copied sent done
copy_loop reports at_end expected (turn ∷ turns) done sent =
    if ltb done expected
    then elim (turn.deadline) [
      | err e ↦ failed sent (reports.late e)
      | ok u ↦ elim (turn.read (min (expected - done) buffer_size)) [
        | err e ↦ failed sent (with_error_kind io e)
        | ok [] ↦ at_end sent done
        | ok (b ∷ bytes) ↦
            after_chunk (write_chunk reports turn.writes (b ∷ bytes) sent)
              (copy_loop reports at_end expected turns (done + length (b ∷ bytes)))
      ]
    ]
    else copied sent done

abbrev pub put_reports : Reports
put_reports = record {
  late = with_error_kind ssh;
  unwritten = transfer_error;
  nothing_taken = write_zero;
}

unfoldable pub copy_file_with_deadline : ℕ → List CopyTurn → Copying ℕ
unfolding copy_loop with_error_kind
copy_file_with_deadline expected turns = copy_loop put_reports copied expected turns 0 []

non_empty : Option Text → Bool
non_empty none = false
non_empty (some text) = not (is_empty text)

-- The status of a process is an `i32`, here by its bits.
unfoldable pub validate_scp_completion : Option Text → Option Text → ℕ → Result (Unit {0})
unfolding non_empty
validate_scp_completion exit_signal error_message exit_status =
    if non_empty exit_signal
    then (if non_empty error_message
        then err (app_error ssh (says (codes "remote scp terminated by signal, with a message")))
        else err (app_error ssh (says (codes "remote scp terminated by signal"))))
    else if exit_status == 0
    then ok tt
    else err (app_error ssh (says (codes "remote scp exited with a status")))

-- What the channel says when the transfer is over.
pub record Completion : Type 0 where
  pub handshake : Result (Unit {0})
  pub exit_signal : Option Text
  pub error_message : Option Text
  pub exit_status : ℕ

-- `complete_scp_transfer`; its exchange with the channel is one answer.
unfoldable pub complete_scp_transfer : Completion → Result (Unit {0})
unfolding validate_scp_completion
complete_scp_transfer c =
    map_err ssh c.handshake >> validate_scp_completion c.exit_signal c.error_message c.exit_status

-- The end of `put_inner`: the copied number is compared with the announced one.
unfoldable pub finish_put : ℕ → Copying ℕ → Completion → Option (Result ℕ)
unfolding complete_scp_transfer
finish_put announced (copying sent) c = none
finish_put announced (failed sent e) c = some (err e)
finish_put announced (copied sent n) c = some (
    if n == announced
    then (complete_scp_transfer c >> ok n)
    else err (plain_error (codes "local file changed during transfer")))

unfoldable pub put_file : ℕ → List CopyTurn → Completion → Option (Result ℕ)
unfolding copy_file_with_deadline finish_put
put_file announced turns c = finish_put announced (copy_file_with_deadline announced turns) c
