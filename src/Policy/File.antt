-- ===== src/Policy/File.antt =====
-- The policy file (src/policy.rs): its versions, the enforcement state that it gives, and its
-- update. The JSON library is a parameter.
pub mod FailClosed
use sshw.Base.{
  ℕ, ◌^◌, Bool, true, false, not, ◌&&◌, ◌||◌, Text, codes, List, [], ◌∷◌, Option, none, some,
  if◌then◌else◌, ltb, same, Eq, text_eq, option_eq, ◌==◌, is_some,
}
use sshw.Errors.{Message, says, Layer, message, Error, Result, ok, err, ◌>>=◌, ◌>>◌}
use sshw.Storage.{
  FileView, Disk, Stage, observe, settings_error, read_optional, write_owner_only_atomic,
}
use sshw.Policy.{
  AccountRule, policy_version, legacy_policy_version, PolicyFile, PolicyRules, Policy, disabled,
  enabled,
}

pub record PolicyV1Wire : Type 0 where
  pub enabled : Bool
  pub allow_commands : List Text
  pub allow_put_paths : List Text
  pub allow_get_paths : List Text

pub record PolicyV2Wire : Type 0 where
  pub enabled : Bool
  pub allow_commands : List Text
  pub allow_put_paths : List Text
  pub allow_get_paths : List Text
  pub allow_accounts : List AccountRule

-- serde_json, and the derived readers of the two wire formats.
pub record Json : Type 1 where
  pub Value : Type 0
  pub parse : Text → Option Value
  pub get_version : Value → Option Value
  pub as_u64 : Value → Option ℕ
  pub policy_v1 : Value → Option PolicyV1Wire
  pub policy_v2 : Value → Option PolicyV2Wire
  pub print_policy : PolicyFile → Text

abbrev custom : Text → Error
custom text = message (says text) ∷ []

abbrev or_error {ℓ} : {A : Type ℓ} → Error → Option A → Result A
or_error e none = err e
or_error e (some a) = ok a

pub upgrade_v1 : PolicyV1Wire → PolicyFile
upgrade_v1 wire = record {
  version = policy_version;
  enabled = wire.enabled;
  allow_commands = wire.allow_commands;
  allow_put_paths = wire.allow_put_paths;
  allow_get_paths = wire.allow_get_paths;
  allow_accounts = [];
}

pub from_v2 : PolicyV2Wire → PolicyFile
from_v2 wire = record {
  version = policy_version;
  enabled = wire.enabled;
  allow_commands = wire.allow_commands;
  allow_put_paths = wire.allow_put_paths;
  allow_get_paths = wire.allow_get_paths;
  allow_accounts = wire.allow_accounts;
}

unfoldable pub rules_of : PolicyFile → PolicyRules
rules_of file = record {
  allow_commands = file.allow_commands;
  allow_put_paths = file.allow_put_paths;
  allow_get_paths = file.allow_get_paths;
  allow_accounts = file.allow_accounts;
}

abbrev policy_read_label : Text
policy_read_label = codes "failed to read policy file"

unfoldable pub read_optional_policy : FileView → Result (Option Text)
unfolding read_optional
read_optional_policy file = read_optional policy_read_label file

pub record PolicyStatus : Type 0 where
  pub present : Bool
  pub valid : Bool
  pub enabled : Bool

module _ (json : Json) where
  open json use {Value, parse, get_version, as_u64, policy_v1, policy_v2, print_policy}

  -- The version in the document; one without is of the legacy version.
  document_version : Value → Result ℕ
  document_version value = elim (get_version value) [
    | none ↦ ok legacy_policy_version
    | some v ↦ or_error (custom (codes "policy version must be an integer")) (as_u64 v)
  ]

  of_version : ℕ → Value → Result PolicyFile
  of_version version value =
      if version == legacy_policy_version
      then (do
        wire ← or_error (custom (codes "invalid version 1 document")) (policy_v1 value)
        ok (upgrade_v1 wire))
      else if version == policy_version
      then (do
        wire ← or_error (custom (codes "invalid version 2 document")) (policy_v2 value)
        ok (from_v2 wire))
      else err (custom (codes "unsupported policy version"))

  in_u32 : Bool → ℕ → Value → Result PolicyFile
  in_u32 true version value = of_version version value
  in_u32 false version value = err (custom (codes "policy version is out of range"))

  -- `Deserialize for PolicyFile`; the version is a `u32`.
  unfoldable pub deserialize_policy : Value → Result PolicyFile
  unfolding document_version in_u32 of_version upgrade_v1 from_v2
  deserialize_policy value = do
    version ← document_version value
    in_u32 (ltb version (2 ^ 32)) version value

  unfoldable pub parse_policy_file : Text → Result PolicyFile
  unfolding settings_error
  parse_policy_file text =
      elim (do
        value ← or_error (custom (codes "invalid JSON")) (parse text)
        deserialize_policy value) [
          | ok file ↦ ok file
          | err e ↦ err (settings_error (codes "invalid policy file") e)
        ]

  resolve_contents : Bool → Option Text → Result Policy
  unfolding rules_of
  resolve_contents force_enable none =
      if force_enable
      then err (custom (codes "policy enforcement requested (--policy) but no policy file"))
      else ok disabled
  resolve_contents force_enable (some text) = do
    file ← parse_policy_file text
    if force_enable || file.enabled then ok (enabled (rules_of file)) else ok disabled

  unfoldable pub resolve_policy : FileView → Bool → Result Policy
  unfolding resolve_contents
  resolve_policy file force_enable = do
    read ← read_optional_policy file
    resolve_contents force_enable read

  describe_parsed : Bool → Result PolicyFile → PolicyStatus
  describe_parsed force_enable (ok file) = record {
    present = true;
    valid = true;
    enabled = force_enable || file.enabled;
  }
  describe_parsed force_enable (err e) = record {
    present = true;
    valid = false;
    enabled = force_enable;
  }

  describe_read : Bool → Result (Option Text) → PolicyStatus
  unfolding describe_parsed
  describe_read force_enable (ok none) = record {
    present = false;
    valid = true;
    enabled = force_enable;
  }
  describe_read force_enable (ok (some text)) =
      describe_parsed force_enable (parse_policy_file text)
  describe_read force_enable (err e) = record {
    present = true;
    valid = false;
    enabled = force_enable;
  }

  unfoldable pub describe_policy : FileView → Bool → PolicyStatus
  unfolding describe_read
  describe_policy file force_enable = describe_read force_enable (read_optional_policy file)

  -- The document and the text that it was read from, as its revision.
  unfoldable pub load_policy_with_revision : FileView → Result (Option PolicyFile × Option Text)
  load_policy_with_revision file = do
    read ← read_optional_policy file
    elim read [
      | none ↦ ok (none, none)
      | some text ↦ (do loaded ← parse_policy_file text; ok (some loaded, some text))
    ]

  abbrev pub concurrent_change : Error
  concurrent_change = custom (codes "policy file changed concurrently; inspect it and retry")

  save_if_same :
      (Stage → Bool) → PolicyFile → Option Text → Disk → Option Text → Result (Unit {0}) × Disk
  save_if_same fails file revision disk current =
      if same current revision
      then write_owner_only_atomic fails (print_policy file) disk
      else (err concurrent_change, disk)

  -- `readable` is whether the check of the revision can read the file.
  unfoldable pub save_policy_if_unchanged :
      Bool → (Stage → Bool) → PolicyFile → Option Text → Disk → Result (Unit {0}) × Disk
  unfolding save_if_same
  save_policy_if_unchanged readable fails file revision disk =
      elim (read_optional_policy (observe readable disk)) [
        | err e ↦ (err e, disk)
        | ok current ↦ save_if_same fails file revision disk current
      ]
