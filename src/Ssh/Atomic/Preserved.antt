-- ===== src/Ssh/Atomic/Preserved.antt =====
-- What an atomic upload does to the destination, and what its failure may say
-- (src/ssh/atomic_upload.rs, `upload`).
use sshw.Base.{
  ℕ, ◌≤◌, true, false, List, [], ◌++◌, Option, none, some, length, ◌≡◌, ◌≢◌, ◌⊎◌, inl, inr, refl,
  sym, ◌∙◌, arith, Bool-cases, subst, some-injective,
}
use sshw.Errors.{Error, Result, ok, err, and_then}
use sshw.Ssh.Channel.{Bytes}
use sshw.Ssh.Transfer.{CopyTurn, Copying, copying, copied, failed, copy_loop}
use sshw.Ssh.Transfer.Whole.{Reads, EndsWhere, copy_loop-Front, copy_loop_full}
use sshw.Ssh.Atomic.{
  Creation, not_attempted, unconfirmed, confirmed, Reply, UploadAnswers, Uploading, removed,
  UploadEnd, uploaded, upload_failed, upload_reports, at_shrunk_end, open_temporary, prepare,
  rename_over, check_temporary, replace_destination, temporary_report, clean_up_temporary,
  fail_after, fail_upload, finish_upload, after_copy, after_prepare, upload, before_upload,
}

-- An answer that something was done means that it was done; what was done may go unanswered.
abbrev pub IsHonest : Reply → Type 0
IsHonest reply = reply.answer ≡ ok tt → reply.performed ≡ true

-- The destination holds the front of the file, of the announced size.
abbrev pub IsWhole : ℕ → Bytes → Option Bytes → Type 0
IsWhole size content destination =
    (sent : Bytes) × (after : Bytes) × (destination ≡ some sent)
    × (length sent ≡ size)
    × (content ≡ sent ++ after)

prepare_lem :
    (a : UploadAnswers) (s : Uploading)
    → ((prepare a s).0.destination ≡ s.destination)
      × ((prepare a s).0.rename_started ≡ s.rename_started)
      × ((prepare a s).0.unlink_tried ≡ s.unlink_tried)
unfolding prepare open_temporary
prepare_lem a s = (ground arith, ground arith, ground arith)

-- What the end of an upload does to the destination: nothing, or it becomes the temporary file; and
-- nothing if no rename was started.
abbrev Replaced : Uploading → Uploading × Result (Unit {0}) → Type 0
Replaced s (end, outcome) =
    ((end.destination ≡ s.destination) ⊎ (end.destination ≡ s.temporary))
    × (end.rename_started ≡ false → end.destination ≡ s.destination)
    × (outcome ≡ ok tt → (end.destination ≡ s.temporary) × (end.temporary ≡ none))
    × (end.unlink_tried ≡ s.unlink_tried)

-- A step that may fail and changes nothing.
skip :
    {T : Type 0} (s : Uploading) (r : Result T)
    (next : T → Uploading → Uploading × Result (Unit {0}))
    → ((value : T) → Replaced s (next value s))
    → Replaced s (and_then (s, r) next)
skip s (err e) next h = (inl refl, λ n. refl, λ q. cc, refl)
skip s (ok value) next h = h value

rename_over-Replaced :
    (a : UploadAnswers) (s : Uploading) → IsHonest a.posix_rename → Replaced s (rename_over a s)
unfolding rename_over
rename_over-Replaced a s honest = elim (Bool-cases a.posix_rename.performed) [
  | inl e ↦ (
    inr (ground arith),
    λ n. absurd (ground arith),
    λ q. (ground arith, ground arith),
    ground arith,
  )
  | inr e ↦ (
    inl (ground arith),
    λ n. ground arith,
    λ q. absurd (let p = honest q in ground arith),
    ground arith,
  )
]

replace_destination-Replaced :
    (a : UploadAnswers) (size : ℕ) (s : Uploading)
    → IsHonest a.posix_rename
    → Replaced s (replace_destination a size s)
unfolding replace_destination
replace_destination-Replaced a size s honest =
    skip s (check_temporary a size) (λ u s. rename_over a s) (λ u. rename_over-Replaced a s honest)

-- What an end of an upload is allowed to have done, and to say.
abbrev pub Reported : ℕ → Bytes → Option Bytes → Uploading × UploadEnd → Type 0
Reported size content old (end, uploaded n) =
    (n ≡ size) × IsWhole size content end.destination × (end.temporary ≡ none)
Reported size content old (end, upload_failed e report) =
    ((end.destination ≡ old) ⊎ IsWhole size content end.destination)
    × (report.preserved ≡ true → end.destination ≡ old)
    × (report.temporary ≡ removed → end.temporary ≡ none)
    × (end.unlink_tried ≡ true → end.creation ≡ confirmed)

removed_lem :
    (answer : Result (Unit {0}))
    → temporary_report confirmed (some answer) ≡ removed
    → answer ≡ ok tt
unfolding temporary_report
removed_lem (ok u) h = refl
removed_lem (err e) h = cc

never_copied :
    (sent : Bytes) (done : ℕ) (now : Bytes) (end : ℕ) → at_shrunk_end sent done ≢ copied now end
never_copied sent done now end h = cc

-- A failure keeps the destination; it removes a temporary file only if its creation was confirmed.
fail_after-Reported :
    (size : ℕ) (content : Bytes) (old : Option Bytes) (a : UploadAnswers) (creation : Creation)
    (s : Uploading) (e : Error)
    → s.creation ≡ creation
    → IsHonest a.unlink
    → (s.destination ≡ old) ⊎ IsWhole size content s.destination
    → (s.rename_started ≡ false → s.destination ≡ old)
    → s.unlink_tried ≡ false
    → Reported size content old (fail_after creation a s e)
unfolding fail_after clean_up_temporary temporary_report
fail_after-Reported size content old a not_attempted s e c honest kept preserved fresh =
    (kept, λ p. preserved (ground arith), λ r. cc, λ t. absurd (ground arith))
fail_after-Reported size content old a unconfirmed s e c honest kept preserved fresh =
    (kept, λ p. preserved (ground arith), λ r. cc, λ t. absurd (ground arith))
fail_after-Reported size content old a confirmed s e c honest kept preserved fresh = (
  kept,
  λ p. preserved (ground arith),
  λ r.
      let done : a.unlink.performed ≡ true = honest (removed_lem a.unlink.answer r) in ground arith,
  λ t. c,
)

fail_upload-Reported :
    (size : ℕ) (content : Bytes) (old : Option Bytes) (a : UploadAnswers) (s : Uploading)
    (e : Error)
    → IsHonest a.unlink
    → (s.destination ≡ old) ⊎ IsWhole size content s.destination
    → (s.rename_started ≡ false → s.destination ≡ old)
    → s.unlink_tried ≡ false
    → Reported size content old (fail_upload a s e)
unfolding fail_upload
fail_upload-Reported size content old a s e =
    fail_after-Reported size content old a s.creation s e refl

finish_upload-Reported :
    (size n : ℕ) (content : Bytes) (old : Option Bytes) (a : UploadAnswers) (s : Uploading)
    (step : Uploading × Result (Unit {0}))
    → IsHonest a.unlink
    → Replaced s step
    → s.destination ≡ old
    → IsWhole size content s.temporary
    → n ≡ size
    → s.unlink_tried ≡ false
    → Reported size content old (finish_upload a n step)
unfolding finish_upload
finish_upload-Reported size n content old a s (end, ok u) honest (dest, started, done, tried) same
      (sent, after, there, l, front) all fresh =
    let (replaced, gone) = done refl in (all, (sent, after, replaced ∙ there, l, front), gone)
finish_upload-Reported size n content old a s (end, err e) honest (dest, started, done, tried) same
      (sent, after, there, l, front) all fresh =
    fail_upload-Reported size content old a end e honest
      (elim dest [
        | inl kept ↦ inl (kept ∙ same)
        | inr replaced ↦ inr (sent, after, replaced ∙ there, l, front)
      ])
      (λ p. started p ∙ same) (tried ∙ fresh)

shrunk_where : EndsWhere at_shrunk_end
shrunk_where sent done now end h = absurd (never_copied sent done now end h)

after_copy-Reported :
    (size : ℕ) (content : Bytes) (a : UploadAnswers) (s : Uploading) (step : Copying ℕ)
    (end : Uploading × UploadEnd)
    → IsHonest a.posix_rename
    → IsHonest a.unlink
    → s.rename_started ≡ false
    → s.unlink_tried ≡ false
    → ((now : Bytes) (n : ℕ) → step ≡ copied now n → (n ≡ size) × IsWhole size content (some now))
    → after_copy a size s step ≡ some end
    → Reported size content s.destination end
unfolding after_copy
after_copy-Reported size content a s (copying now) end honest honest' fresh fresh' whole h = cc
after_copy-Reported size content a s (failed now e) end honest honest' fresh fresh' whole h =
    subst (Reported size content s.destination) (some-injective _ _ h) (
      fail_upload-Reported size content s.destination a (record s { temporary = some now }) e
        honest' (inl refl) (λ p. refl) fresh')
after_copy-Reported size content a s (copied now n) end honest honest' fresh fresh' whole h =
    let (all, is_whole) = whole now n refl in
    let staged : Uploading = record s { temporary = some now } in
    subst (Reported size content s.destination) (some-injective _ _ h) (
      finish_upload-Reported size n content s.destination a staged
        (replace_destination a size staged) honest'
        (replace_destination-Replaced a size staged honest) refl is_whole all fresh')

-- A copy that is done has read the whole file, if every read delivers its front.
staged-IsWhole :
    (size : ℕ) (content : Bytes) (turns : List CopyTurn)
    → Reads content turns
    → (now : Bytes) (n : ℕ) → copy_loop upload_reports at_shrunk_end size turns 0 [] ≡ copied now n
    → (n ≡ size) × IsWhole size content (some now)
staged-IsWhole size content turns reads now n h =
    let (l, le, after, front) =
      copy_loop-Front upload_reports at_shrunk_end shrunk_where size turns content content [] now 0
        n reads refl refl (omega arith) h in
    let full : size ≤ n =
      copy_loop_full upload_reports at_shrunk_end size turns [] now 0 n never_copied h in
    let all : n ≡ size = omega arith in (all, (now, after, refl, sym l ∙ all, front))

after_prepare-Reported :
    (a : UploadAnswers) (size : ℕ) (content : Bytes) (old : Option Bytes)
    (step : Uploading × Result (Unit {0})) (end : Uploading × UploadEnd)
    → Reads content a.copy
    → IsHonest a.posix_rename
    → IsHonest a.unlink
    → (step.0.destination ≡ old) × (step.0.rename_started ≡ false) × (step.0.unlink_tried ≡ false)
    → after_prepare a size step ≡ some end
    → Reported size content old end
unfolding after_prepare
after_prepare-Reported a size content old (s, err e) end reads honest honest' (same, f, g) h =
    subst (Reported size content old) (some-injective _ _ h)
      (fail_upload-Reported size content old a s e honest' (inl same) (λ p. same) g)
after_prepare-Reported a size content old (s, ok u) end reads honest honest' (same, f, g) h =
    subst (λ dest. Reported size content dest end) same
      (after_copy-Reported size content a s
        (copy_loop upload_reports at_shrunk_end size a.copy 0 []) end honest honest' f g
        (staged-IsWhole size content a.copy reads) h)

-- An upload that ends, with reads that deliver the file from its front and with a server that did
-- what it says it did: if it reports success, the destination is the front of the file, of the
-- announced size, and there is no temporary file; if it fails, the destination is as before or such
-- a whole file, it is as before if the message says that it is preserved, there is no temporary file
-- if the message says that it was removed, and a file was only removed if its creation was confirmed.
pub upload-Reported :
    (a : UploadAnswers) (size : ℕ) (content : Bytes) (destination : Option Bytes)
    (end : Uploading × UploadEnd)
    → Reads content a.copy
    → IsHonest a.posix_rename
    → IsHonest a.unlink
    → upload a size (before_upload destination) ≡ some end
    → Reported size content destination end
unfolding upload
upload-Reported a size content destination end reads honest honest' h =
    after_prepare-Reported a size content destination (prepare a (before_upload destination)) end
      reads honest honest' (prepare_lem a (before_upload destination)) h
