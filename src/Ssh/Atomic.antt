-- ===== src/Ssh/Atomic.antt =====
-- The atomic upload (src/ssh/atomic_upload.rs, `upload`) behind `parent_path`, which Access.Transfers
-- has: a temporary file beside the destination is written, checked, and renamed over it. The server
-- may do what it is asked and its answer may be lost, so a reply says both. The stage that a message
-- names, its texts, the name of the temporary file, and the mode are left out.
pub mod Preserved
use sshw.Base.{
  ℕ, Bool, true, false, not, Text, codes, List, [], ◌∷◌, Option, none, some, ◌==◌, if◌then◌else◌,
}
use sshw.Errors.{
  ssh, io, says, context, Error, Result, ok, err, app_error, and_then, with_error_kind, ◌>>=◌, ◌>>◌,
}
use sshw.Ssh.Channel.{Bytes}
use sshw.Ssh.Transfer.{CopyTurn, Reports, Copying, copying, copied, failed, copy_loop}

pub data Creation : Type 0 where
  not_attempted unconfirmed confirmed : Creation

-- Whether the server did what it was asked, and what the client was told.
pub record Reply : Type 0 where
  pub performed : Bool
  pub answer : Result (Unit {0})

-- What the clock and the server answer, in the order of the calls; the deadline is applied before
-- each call to the server.
pub record UploadAnswers : Type 0 where
  pub temporary_name : Result (Unit {0})
  pub sftp_deadline : Result (Unit {0})
  pub sftp : Result (Unit {0})
  pub create_deadline : Result (Unit {0})
  pub open_mode : Reply
  pub copy : List CopyTurn
  pub stat_deadline : Result (Unit {0})
  pub stat_size : Result (Option ℕ)
  pub mode_deadline : Result (Unit {0})
  pub setstat : Result (Unit {0})
  pub close_deadline : Result (Unit {0})
  pub close : Result (Unit {0})
  pub rename_deadline : Result (Unit {0})
  pub posix_rename : Reply
  pub unlink : Reply

-- The variables of the upload, and the two remote files: the destination, and the temporary one.
pub record Uploading : Type 0 where
  pub creation : Creation
  pub rename_started : Bool
  pub unlink_tried : Bool
  pub temporary : Option Bytes
  pub destination : Option Bytes

-- What is told about the temporary file, and whether the destination is said to be preserved.
pub data TemporaryReport : Type 0 where
  no_cleanup creation_unconfirmed removed may_remain : TemporaryReport

pub record FailureReport : Type 0 where
  pub preserved : Bool
  pub temporary : TemporaryReport

pub data UploadEnd : Type 0 where
  uploaded : ℕ → UploadEnd
  upload_failed : Error → FailureReport → UploadEnd

abbrev shrank : Error
shrank = app_error ssh (says (codes "local file shrank during transfer"))

abbrev pub upload_reports : Reports
upload_reports = record {
  late = λ e. e;
  unwritten = with_error_kind ssh;
  nothing_taken = app_error ssh (says (codes "remote file accepted no further bytes"));
}

abbrev pub at_shrunk_end : Bytes → ℕ → Copying ℕ
at_shrunk_end sent done = failed sent shrank

unfoldable pub open_temporary : UploadAnswers → Uploading → Uploading × Result (Unit {0})
open_temporary a s =
    and_then
      (
        record s {
          creation = unconfirmed;
          temporary = if a.open_mode.performed then some [] else s.temporary;
        },
        a.open_mode.answer,
      )
      (λ u s. (record s { creation = confirmed }, ok tt))

-- Everything before the copy.
unfoldable pub prepare : UploadAnswers → Uploading → Uploading × Result (Unit {0})
unfolding open_temporary
prepare a s =
    and_then (s, a.temporary_name)
      (λ u s.
        and_then (s, a.sftp_deadline)
          (λ u s.
            and_then (s, a.sftp)
              (λ u s. and_then (s, a.create_deadline) (λ u s. open_temporary a s))))

same_size : ℕ → Option ℕ → Result (Unit {0})
same_size size none =
    err (app_error ssh (says (codes "staged upload size does not match the source")))
same_size size (some n) =
    if n == size
    then ok tt
    else err (app_error ssh (says (codes "staged upload size does not match the source")))

unfoldable pub rename_over : UploadAnswers → Uploading → Uploading × Result (Unit {0})
rename_over a s = (
  (if a.posix_rename.performed
      then record s { rename_started = true; destination = s.temporary; temporary = none }
      else record s { rename_started = true }),
  a.posix_rename.answer,
)

-- The calls between the copy and the rename.
unfoldable pub check_temporary : UploadAnswers → ℕ → Result (Unit {0})
unfolding same_size
check_temporary a size =
    a.stat_deadline
    >> (a.stat_size >>= same_size size)
    >> a.mode_deadline
    >> a.setstat
    >> a.close_deadline
    >> a.close
    >> a.rename_deadline

-- Everything behind the copy.
unfoldable pub replace_destination : UploadAnswers → ℕ → Uploading → Uploading × Result (Unit {0})
unfolding check_temporary rename_over
replace_destination a size s = and_then (s, check_temporary a size) (λ u s. rename_over a s)

-- The `match` of `failure_message` on the creation and the cleanup.
unfoldable pub temporary_report : Creation → Option (Result (Unit {0})) → TemporaryReport
temporary_report not_attempted cleanup = no_cleanup
temporary_report unconfirmed cleanup = creation_unconfirmed
temporary_report confirmed (some (ok u)) = removed
temporary_report confirmed (some (err e)) = may_remain
temporary_report confirmed none = may_remain

-- A failed upload removes its temporary file if the server confirmed that it created it.
unfoldable pub clean_up_temporary :
    Creation → UploadAnswers → Uploading → Uploading × Option (Result (Unit {0}))
clean_up_temporary confirmed a s = (
  record s { unlink_tried = true; temporary = if a.unlink.performed then none else s.temporary },
  some a.unlink.answer,
)
clean_up_temporary _ a s = (s, none)

unfoldable pub fail_after : Creation → UploadAnswers → Uploading → Error → Uploading × UploadEnd
unfolding clean_up_temporary temporary_report
fail_after creation a s e =
    let (after, cleanup) = clean_up_temporary creation a s in
    (
      after,
      upload_failed (context (says (codes "atomic upload failed")) ∷ e) (record {
        preserved = not s.rename_started;
        temporary = temporary_report creation cleanup;
      }),
    )

unfoldable pub fail_upload : UploadAnswers → Uploading → Error → Uploading × UploadEnd
unfolding fail_after
fail_upload a s e = fail_after s.creation a s e

unfoldable pub finish_upload :
    UploadAnswers → ℕ → Uploading × Result (Unit {0}) → Uploading × UploadEnd
unfolding fail_upload
finish_upload a n (s, err e) = fail_upload a s e
finish_upload a n (s, ok u) = (s, uploaded n)

unfoldable pub after_copy :
    UploadAnswers → ℕ → Uploading → Copying ℕ → Option (Uploading × UploadEnd)
unfolding fail_upload finish_upload replace_destination
after_copy a size s (copying sent) = none
after_copy a size s (failed sent e) = some (fail_upload a (record s { temporary = some sent }) e)
after_copy a size s (copied sent n) =
    some (finish_upload a n (replace_destination a size (record s { temporary = some sent })))

unfoldable pub after_prepare :
    UploadAnswers → ℕ → Uploading × Result (Unit {0}) → Option (Uploading × UploadEnd)
unfolding fail_upload after_copy copy_loop
after_prepare a size (s, err e) = some (fail_upload a s e)
after_prepare a size (s, ok u) =
    after_copy a size s (copy_loop upload_reports at_shrunk_end size a.copy 0 [])

-- Nothing while the copy waits for another turn.
unfoldable pub upload : UploadAnswers → ℕ → Uploading → Option (Uploading × UploadEnd)
unfolding prepare after_prepare
upload a size s = after_prepare a size (prepare a s)

abbrev pub before_upload : Option Bytes → Uploading
before_upload destination = record {
  creation = not_attempted;
  rename_started = false;
  unlink_tried = false;
  temporary = none;
  destination = destination;
}
