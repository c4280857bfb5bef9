-- ===== src/Tests/Storage.antt =====
-- Runs of the writes of state files and of the check of a download's destination.
use sshw.Base.{Bool, true, false, codes, [], ◌∷◌, some}
use sshw.Storage.{Stage, Disk, replace, write_owner_only_atomic}
use sshw.Storage.Publish.{Outcome, write_owner_only_atomic-Outcome}
use sshw.Storage.Download.{LocalPath, not_directory, directory, absent}

abbrev fails_to_replace : Stage → Bool
fails_to_replace replace = true
fails_to_replace _ = false

abbrev old_disk : Disk
old_disk = record { file = some (codes "old"); staged = false }

write_owner_only_atomic-Outcome_example :
    Outcome (codes "new") old_disk (write_owner_only_atomic fails_to_replace (codes "new") old_disk)
write_owner_only_atomic-Outcome_example =
    write_owner_only_atomic-Outcome fails_to_replace (codes "new") old_disk

abbrev present : LocalPath
present = record { try_exists = some true; entry = not_directory; ancestors = directory ∷ [] }

abbrev fresh : LocalPath
fresh = record { try_exists = some false; entry = absent; ancestors = absent ∷ directory ∷ [] }
