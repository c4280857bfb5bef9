-- ===== src/Storage/Publish.antt =====
-- What a write leaves on disk, whichever step fails.
use sshw.Base.{Bool, true, false, Text, some, ◌≡◌, ◌⊎◌, arith}
use sshw.Errors.{Result, ok, err, write_was_published}
use sshw.Storage.{Stage, Disk, write_owner_only_atomic}

-- The outcome of a write: success or a published error with the new text in place, or another
-- error with the destination as it was.
abbrev pub Outcome : Text → Disk → Result (Unit {0}) × Disk → Type 0
Outcome text disk (ok u, after) = (after.file ≡ some text) × (after.staged ≡ false)
Outcome text disk (err e, after) =
    ((write_was_published e ≡ true) × (after.file ≡ some text))
    ⊎ ((write_was_published e ≡ false) × (after.file ≡ disk.file))

-- Whatever step fails, the destination is never lost or half written, and the error tells whether
-- the new text is in place.
pub write_owner_only_atomic-Outcome :
    (fails : Stage → Bool) (text : Text) (disk : Disk)
    → Outcome text disk (write_owner_only_atomic fails text disk)
unfolding write_owner_only_atomic write_was_published
write_owner_only_atomic-Outcome fails text disk = ground arith
