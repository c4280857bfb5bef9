-- ===== src/Policy/File/FailClosed.antt =====
-- The policy file fails closed, and what `doctor` shows of it is what is enforced.
use sshw.Base.{
  Bool, true, false, Text, [], Option, none, some, ◌≡◌, ◌≢◌, ◌⊎◌, arith, text_eq, option_eq,
}
use sshw.Errors.{Result, ok, err}
use sshw.Storage.{FileView, Disk, Stage}
use sshw.Policy.{policy_version, PolicyFile, Policy, disabled, enabled}
use sshw.Policy.File.{
  Json, PolicyStatus, deserialize_policy, parse_policy_file, read_optional_policy, resolve_policy,
  describe_policy, save_policy_if_unchanged,
}

module _ (json : Json) where
  -- The file says that enforcement is off, or there is none.
  abbrev pub IsOff : FileView → Type 0
  IsOff file =
      (read_optional_policy file ≡ ok none)
      ⊎ ((text : Text) × (parsed : PolicyFile) × (read_optional_policy file ≡ ok (some text))
          × (parse_policy_file json text ≡ ok parsed)
          × (parsed.enabled ≡ false))

  -- How a status and an outcome agree.
  abbrev pub Agrees : PolicyStatus → Result Policy → Type 0
  Agrees status (ok disabled) = (status.valid ≡ true) × (status.enabled ≡ false)
  Agrees status (ok (enabled rules)) =
      (status.present ≡ true) × (status.valid ≡ true) × (status.enabled ≡ true)
  Agrees status (err e) =
      (status.valid ≡ false) ⊎ ((status.present ≡ false) × (status.enabled ≡ true))

  -- What `doctor` describes is what a run gets: a policy that is off is described as valid and off,
  -- one that is enforced from a file as present, valid and enabled, and when a run gets an error
  -- the description says that the file is not valid, or that it is missing while enforcement is asked for.
  pub describe-resolve :
      (file : FileView) (force_enable : Bool)
      → Agrees (describe_policy json file force_enable) (resolve_policy json file force_enable)
  unfolding describe_policy resolve_policy
  describe-resolve file force_enable = ground arith

  -- Every document that is read is of the current version, and one of the legacy version, or
  -- without a version, grants no account.
  pub deserialize_policy_version :
      (value : json.Value) (file : PolicyFile)
      → deserialize_policy json value ≡ ok file
      → (file.version ≡ policy_version) × (json.get_version value ≡ none → file.allow_accounts ≡ [])
  unfolding deserialize_policy
  deserialize_policy_version value file h = ground arith

  -- A save writes only over the text that was loaded: if the file changed in between, or cannot be
  -- read, it is left as it is and the error is returned.
  pub save_policy_if_unchanged_stale :
      (readable : Bool) (fails : Stage → Bool) (file : PolicyFile) (revision : Option Text)
      (disk : Disk)
      → (readable ≡ false) ⊎ (disk.file ≢ revision)
      → ((save_policy_if_unchanged json readable fails file revision disk).1 ≡ disk)
        × ((save_policy_if_unchanged json readable fails file revision disk).0 ≢ ok tt)
  unfolding save_policy_if_unchanged read_optional_policy
  save_policy_if_unchanged_stale readable fails file revision disk h = ground arith
