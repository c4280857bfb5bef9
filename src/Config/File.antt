-- ===== src/Config/File.antt =====
-- The configuration file (src/config.rs): reading, and saving over an unchanged revision. The JSON
-- library and the derived readers of the wire formats are parameters.
pub mod Revision
use sshw.Base.{
  ℕ, ◌^◌, Bool, true, false, Text, codes, List, [], ◌∷◌, Option, none, some, if◌then◌else◌, ltb,
  same, Eq, text_eq, option_eq, ◌==◌, Map,
}
use sshw.Errors.{Message, says, Layer, context, Error, Result, ok, err, ◌>>=◌, ◌>>◌}
use sshw.Storage.{
  FileView, Disk, Stage, observe, settings_error, read_optional, write_owner_only_atomic,
}
use sshw.Home.Hash.{as_bytes}
use sshw.Config.{
  config_version, legacy_config_version, CredentialBackend, ServerConfig, SshwConfig,
  default_config, plain_error, validate_server_endpoint,
}
use sshw.Config.Migrate.{ConfigV1Wire, migrate_v1}

pub record ConfigV2Wire : Type 0 where
  pub default : Option Text
  pub servers : Map ServerConfig
  pub credential_backend : CredentialBackend

-- serde_json, and the derived readers and writer.
pub record ConfigJson : Type 1 where
  pub Value : Type 0
  pub parse : Text → Option Value
  -- `value.get("version").and_then(Value::as_u64)`
  pub version_u64 : Value → Option ℕ
  pub config_v2 : Value → Option ConfigV2Wire
  pub config_v1 : Value → Option ConfigV1Wire
  pub print_config : SshwConfig → Text

-- The bytes that were read, or that there was no file.
pub record ConfigRevision : Type 0 where
  pub bytes : Option Text

abbrev or_error {ℓ} : {A : Type ℓ} → Text → Option A → Result A
or_error text none = err (plain_error text)
or_error text (some a) = ok a

unfoldable pub of_v2 : ConfigV2Wire → SshwConfig
of_v2 wire = record {
  version = config_version;
  default = wire.default;
  servers = wire.servers;
  credential_backend = wire.credential_backend;
}

-- The loop over the endpoints.
unfoldable pub validate_endpoints : Map ServerConfig → Result (Unit {0})
validate_endpoints [] = ok tt
validate_endpoints ((name, server) ∷ servers) =
    validate_server_endpoint server.host server.port >>= λ u. validate_endpoints servers

abbrev pub bytes_of : Option Text → Option Text
bytes_of none = none
bytes_of (some text) = some (as_bytes text)

unfoldable pub read_config_contents : FileView → Result (Option Text)
unfolding read_optional
read_config_contents file = read_optional (codes "failed to load config") file

module _ (json : ConfigJson) where
  open json use {Value, parse, version_u64, config_v2, config_v1, print_config}

  of_version : ℕ → Value → Result SshwConfig
  unfolding of_v2
  of_version version value =
      if version == config_version
      then (do
        wire ← or_error (codes "invalid version 2 document") (config_v2 value)
        ok (of_v2 wire))
      else if version == legacy_config_version
      then (do
        wire ← or_error (codes "invalid version 1 document") (config_v1 value)
        migrate_v1 wire)
      else err (plain_error (codes "unsupported config version"))

  in_u32 : Bool → ℕ → Value → Result SshwConfig
  in_u32 true version value = of_version version value
  in_u32 false version value = err (plain_error (codes "config version is out of range"))

  -- `Deserialize for SshwConfig`.
  unfoldable pub deserialize_config : Value → Result SshwConfig
  unfolding of_version in_u32
  deserialize_config value = do
    version ← or_error (codes "missing field `version`") (version_u64 value)
    config ← in_u32 (ltb version (2 ^ 32)) version value
    validate_endpoints config.servers
    ok config

  unfoldable pub parse_config : Text → Result SshwConfig
  unfolding settings_error
  parse_config text =
      elim (do value ← or_error (codes "invalid JSON") (parse text); deserialize_config value) [
        | ok config ↦ ok config
        | err e ↦ err (settings_error (codes "failed to load config") e)
      ]

  load_contents : Option Text → Result (SshwConfig × ConfigRevision)
  load_contents none = ok (default_config, record { bytes = none })
  load_contents (some text) = do
    config ← parse_config text
    ok (config, record { bytes = some (as_bytes text) })

  unfoldable pub load_config_with_revision : FileView → Result (SshwConfig × ConfigRevision)
  unfolding load_contents
  load_config_with_revision file = do contents ← read_config_contents file; load_contents contents

  saved : Result (Unit {0}) × Disk → Result (Unit {0}) × Disk
  saved (ok u, disk) = (ok tt, disk)
  saved (err e, disk) = (err (context (says (codes "failed to save config")) ∷ e), disk)

  -- A configuration is always printed; a failure of the printer is not modelled.
  unfoldable pub save_config : (Stage → Bool) → SshwConfig → Disk → Result (Unit {0}) × Disk
  unfolding saved
  save_config fails config disk = saved (write_owner_only_atomic fails (print_config config) disk)

  abbrev pub concurrent_change : Error
  concurrent_change = plain_error (codes "failed to save config: config changed concurrently")

  save_if_same :
      (Stage → Bool) → SshwConfig → ConfigRevision → Disk → Option Text → Result (Unit {0}) × Disk
  save_if_same fails config revision disk current =
      if same (bytes_of current) revision.bytes
      then save_config fails config disk
      else (err concurrent_change, disk)

  -- `readable` is whether the check of the revision can read the file.
  unfoldable pub save_config_if_unchanged :
      Bool → (Stage → Bool) → SshwConfig → ConfigRevision → Disk → Result (Unit {0}) × Disk
  unfolding save_if_same
  save_config_if_unchanged readable fails config revision disk =
      elim (read_config_contents (observe readable disk)) [
        | err e ↦ (err (context (says (codes "save config while checking its revision")) ∷ e), disk)
        | ok current ↦ save_if_same fails config revision disk current
      ]
