-- ===== src/Storage.antt =====
-- One state file on disk: how it is read, and how it is replaced atomically (src/storage.rs, and the
-- readers of src/policy.rs, src/config.rs and src/profile.rs). What the operating system answers
-- is an argument.
pub mod Publish
pub mod Download
use sshw.Base.{Bool, true, false, Text, codes, [], ◌∷◌, Option, none, some, if◌then◌else◌}
use sshw.Errors.{
  Message, says, Layer, context, message, io_error, published_write, Error, Result, ok, err,
}

-- `fs::read_to_string`.
pub data ReadResult : Type 0 where
  contents : Text → ReadResult
  not_found : ReadResult
  unreadable : ReadResult

-- `fs::symlink_metadata`.
pub data MetadataResult : Type 0 where
  exists missing inaccessible : MetadataResult

-- What reading and inspecting a path give.
pub record FileView : Type 0 where
  pub read : ReadResult
  pub metadata : MetadataResult

-- `settings_error`, with its label; the path, the causes and the hint that it shows are left out.
unfoldable pub settings_error : Text → Error → Error
settings_error label source = context (says label) ∷ source

abbrev pub no_such_file : Error
no_such_file = io_error (says (codes "not found")) ∷ []

abbrev pub read_failed : Error
read_failed = io_error (says (codes "read failed")) ∷ []

-- A file that is not there is none; a dangling link, which reads as not found, is an error.
unfoldable pub read_optional : Text → FileView → Result (Option Text)
unfolding settings_error
read_optional label file = elim (file.read) [
  | contents text ↦ ok (some text)
  | unreadable ↦ err (settings_error label read_failed)
  | not_found ↦ elim (file.metadata) [
    | missing ↦ ok none
    | inaccessible ↦ err (settings_error label read_failed)
    | exists ↦ err (settings_error label no_such_file)
  ]
]

-- The steps of `write_owner_only_atomic` that can fail, in their order.
pub data Stage : Type 0 where
  create_parent create_temp write_temp sync_temp set_mode reopen sync_staged replace sync_parent :
      Stage

pub record Disk : Type 0 where
  -- what the destination holds
  pub file : Option Text
  -- whether a staging file is left beside it
  pub staged : Bool

abbrev stage_error : Text → Error
stage_error operation = context (says operation) ∷ io_error (says operation) ∷ []

-- `write_temp`: a file that was created stays when its data cannot be written or synced.
write_temporary : (Stage → Bool) → Disk → Result (Unit {0}) × Disk
write_temporary fails disk =
    if fails create_temp
    then (err (stage_error (codes "create temporary state file")), disk)
    else if fails write_temp
    then (err (stage_error (codes "write temporary state file")), record disk { staged = true })
    else if fails sync_temp
    then (err (stage_error (codes "sync temporary state file")), record disk { staged = true })
    else (ok tt, record disk { staged = true })

-- The staging file becomes the destination; a failed rename removes the staging file.
publish : (Stage → Bool) → Text → Disk → Result (Unit {0}) × Disk
publish fails text disk =
    if fails replace
    then (err (stage_error (codes "replace state file atomically")), record disk { staged = false })
    else if fails sync_parent
    then (
      err (
          context (says (codes "sync parent directory after publishing state"))
          ∷ published_write
          ∷ io_error (says (codes "sync parent directory"))
          ∷ []),
      record { file = some text; staged = false },
    )
    else (ok tt, record { file = some text; staged = false })

-- What follows `write_temp`.
finish_write : (Stage → Bool) → Text → Disk → Result (Unit {0}) × Disk
finish_write fails text disk =
    if fails set_mode
    then (err (stage_error (codes "set private state staging permissions")), disk)
    else if fails reopen
    then (err (stage_error (codes "reopen state staging file for sync")), disk)
    else if fails sync_staged
    then (err (stage_error (codes "sync state staging file")), disk)
    else publish fails text disk

after_temporary : (Stage → Bool) → Text → Result (Unit {0}) × Disk → Result (Unit {0}) × Disk
after_temporary fails text (ok u, disk) = finish_write fails text disk
after_temporary fails text (err e, disk) = (err e, disk)

unfoldable pub write_owner_only_atomic : (Stage → Bool) → Text → Disk → Result (Unit {0}) × Disk
unfolding write_temporary publish finish_write after_temporary
write_owner_only_atomic fails text disk =
    if fails create_parent
    then (err (stage_error (codes "create state parent directory")), disk)
    else after_temporary fails text (write_temporary fails disk)

-- What a reader sees of the disk: an unreadable file if the read fails.
abbrev pub observe : Bool → Disk → FileView
observe true disk = record {
  read = elim (disk.file) [ none ↦ not_found | some text ↦ contents text ];
  metadata = elim (disk.file) [ none ↦ missing | some text ↦ exists ];
}
observe false disk = record { read = unreadable; metadata = exists }
