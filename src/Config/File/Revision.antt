-- ===== src/Config/File/Revision.antt =====
-- What saving a configuration does to the file.
use sshw.Base.{Bool, ◌≡◌, ◌⊎◌, arith, text_eq, option_eq, any}
use sshw.Errors.{write_was_published}
use sshw.Storage.{Disk, Stage}
use sshw.Storage.Publish.{Outcome, write_owner_only_atomic-Outcome}
use sshw.Config.{SshwConfig}
use sshw.Config.File.{
  ConfigJson, ConfigRevision, bytes_of, read_config_contents, save_config, save_config_if_unchanged,
}

module _ (json : ConfigJson) where
  save_config-Outcome :
      (fails : Stage → Bool) (config : SshwConfig) (disk : Disk)
      → Outcome (json.print_config config) disk (save_config json fails config disk)
  unfolding save_config write_was_published any
  save_config-Outcome fails config disk =
      ground (arith, write_owner_only_atomic-Outcome fails (json.print_config config) disk)

  -- A save that changes the file found in it the bytes of its revision. It succeeds or reports a
  -- published write only with the new text in place, and otherwise the file is as it was.
  pub save_config_if_unchanged-Outcome :
      (readable : Bool) (fails : Stage → Bool) (config : SshwConfig) (revision : ConfigRevision)
      (disk : Disk)
      → Outcome
          (json.print_config config)
          disk
          (save_config_if_unchanged json readable fails config revision disk)
        × (((save_config_if_unchanged json readable fails config revision disk).1 ≡ disk)
            ⊎ (bytes_of disk.file ≡ revision.bytes))
  unfolding save_config_if_unchanged read_config_contents write_was_published any
  save_config_if_unchanged-Outcome readable fails config revision disk =
      ground (arith, save_config-Outcome fails config disk)
