-- ===== src/Profile/File/Saved.antt =====
-- What saving the profile registry does to its file.
use sshw.Base.{Bool, Text, Option, ◌≡◌, ◌⊎◌, arith, text_eq, option_eq, any}
use sshw.Errors.{ok, write_was_published}
use sshw.Storage.{Disk, Stage, read_optional}
use sshw.Storage.Publish.{Outcome, write_owner_only_atomic-Outcome}
use sshw.Profile.{ProfileRegistry, validate_registry}
use sshw.Profile.File.{
  RegistryJson, read_registry_contents, save_registry, save_registry_if_unchanged,
}

module _ (is_absolute : Text → Bool) (json : RegistryJson) where
  save_registry-Outcome :
      (fails : Stage → Bool) (registry : ProfileRegistry) (disk : Disk)
      → Outcome
          (json.print_registry registry)
          disk
          (save_registry is_absolute json fails registry disk)
  unfolding save_registry write_was_published any
  save_registry-Outcome fails registry disk =
      ground (arith, write_owner_only_atomic-Outcome fails (json.print_registry registry) disk)

  -- A save of the registry changes the disk only if the registry passes the check and the file holds
  -- the revision. It succeeds or reports a published write only with the new text in place, and
  -- otherwise the file is as it was.
  pub save_registry_if_unchanged-Outcome :
      (readable : Bool) (fails : Stage → Bool) (registry : ProfileRegistry) (revision : Option Text)
      (disk : Disk)
      → Outcome
          (json.print_registry registry)
          disk
          (save_registry_if_unchanged is_absolute json readable fails registry revision disk)
        × (((save_registry_if_unchanged is_absolute json readable fails registry revision disk).1
              ≡ disk)
            ⊎ ((validate_registry is_absolute registry ≡ ok tt) × (disk.file ≡ revision)))
  unfolding save_registry_if_unchanged save_registry read_registry_contents read_optional
      write_was_published any
  save_registry_if_unchanged-Outcome readable fails registry revision disk =
      ground (arith, save_registry-Outcome fails registry disk)
