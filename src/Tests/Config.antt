-- ===== src/Tests/Config.antt =====
-- Runs of the configuration.
use sshw.Base.{
  Bool, true, false, Text, codes, [], ◌∷◌, none, some, ◌≡◌, ◌⊎◌, refl, arith, get, text_eq,
  text_dec, option_eq, NodupKeys, AllOf, contains_key, insert, remove, keys, text_lt, any, is_empty,
  is_control, is_whitespace, trim, trim_matches, trim_start_matches, trim_end_matches, starts_with,
  strip_prefix, split,
}
use sshw.Errors.{ok}
use sshw.Storage.{Stage, Disk, sync_parent}
use sshw.Storage.Publish.{Outcome}
use sshw.Home.{validate_server_name, label, profile_namespace}
use sshw.Home.Hash.{as_bytes}
use sshw.Home.Keys.{account_credential_key_matches, credential_key_matches, legacy_credential_key}
use sshw.Config.{
  SshwConfig, password, agent, PrivilegeConfig, sudo, native, config_version, default_account,
  account, validate_account_user, validate_user_value, validate_server_endpoint, validate,
  single_account,
}
use sshw.Config.Migrate.{ServerConfigV1, ConfigV1Wire, migrate_v1, migrate_servers, migrate_server}
use sshw.Config.Migrate.Preserves.{expected, migrate_v1_preserves, migrate_v1_total}
use sshw.Config.References.{
  validate_config_credential_references, validate_credential_owner, validate_account,
  validate_accounts, validate_server, validate_servers, owner_label,
}
use sshw.Config.References.Unique.{IsSound, claims_servers, validated_config}
use sshw.Config.File.{ConfigRevision, bytes_of, save_config_if_unchanged}
use sshw.Config.File.Revision.{save_config_if_unchanged-Outcome}
use sshw.Tests.Data.{web, deploy, admin, web_server, settings, config_json, shifted, namespace}

-- A version 1 document with a privilege.
abbrev old_server : ServerConfigV1
old_server = record { host = codes "web.example"; port = 22; user = deploy; auth = agent }

abbrev as_root : PrivilegeConfig
as_root = record { method = sudo; user = codes "root"; credential = none; no_password = true }

abbrev document : ConfigV1Wire
document = record {
  default = some web;
  servers = (web, old_server) ∷ [];
  privileges = (web, as_root) ∷ [];
  credential_backend = native;
}

abbrev current : SshwConfig
current = record {
  version = config_version;
  default = some web;
  servers =
      (
        web,
        record {
          host = codes "web.example";
          port = 22;
          default_user = deploy;
          accounts = (deploy, record { auth = agent; privilege = some as_root }) ∷ [];
        },
      )
      ∷ [];
  credential_backend = native;
}

is_current : migrate_v1 document ≡ ok current
unfolding migrate_v1 migrate_servers migrate_server single_account get remove insert keys text_lt
    text_eq text_dec
is_current = refl

no_twice : NodupKeys document.servers
unfolding get
no_twice = (refl, tt)

migrate_v1_preserves_example :
    (get web current.servers ≡ expected (get web document.servers) (get web document.privileges))
    × (get web document.servers ≡ none → get web document.privileges ≡ none)
    × (current.default ≡ document.default)
    × (current.version ≡ config_version)
    × (current.credential_backend ≡ document.credential_backend)
migrate_v1_preserves_example = migrate_v1_preserves document current web no_twice is_current

every_privilege_has_server :
    (name : Text) → get name document.servers ≡ none → get name document.privileges ≡ none
unfolding get
every_privilege_has_server name h = ground arith

migrate_v1_total_example : (config : SshwConfig) × (migrate_v1 document ≡ ok config)
migrate_v1_total_example = migrate_v1_total document every_privilege_has_server

-- An account with a version 1 credential beside one with an agent.
abbrev registered : SshwConfig
registered = record settings {
  servers =
      (
        web,
        record web_server {
          accounts =
              (admin, record { auth = agent; privilege = some as_root })
              ∷ (deploy, record { auth = password (codes "sshw:p_1:web"); privilege = none })
              ∷ [];
        },
      )
      ∷ [];
}

is_valid : validate_config_credential_references shifted namespace registered ≡ ok tt
unfolding validate_config_credential_references validate_servers validate_server validate_accounts
    validate_account validate_credential_owner validate validate_user_value validate_account_user
    validate_server_name validate_server_endpoint default_account account contains_key get text_eq
    text_dec trim trim_matches trim_start_matches trim_end_matches is_whitespace is_control is_empty
    any starts_with strip_prefix account_credential_key_matches credential_key_matches
    legacy_credential_key split insert owner_label label profile_namespace
is_valid = refl

validated_config_example :
    NodupKeys (claims_servers registered.servers)
    × AllOf (λ (name, server). IsSound shifted namespace name server) registered.servers
    × ((default : Text)
        → registered.default ≡ some default
        → contains_key default registered.servers ≡ true)
validated_config_example = validated_config shifted namespace registered is_valid

-- The disk fails to sync the directory behind the rename.
abbrev fails_late : Stage → Bool
fails_late sync_parent = true
fails_late _ = false

abbrev disk : Disk
disk = record { file = some (codes "old"); staged = false }

abbrev revision : ConfigRevision
revision = record { bytes = some (as_bytes (codes "old")) }

save_config_if_unchanged-Outcome_example :
    Outcome
      (config_json.print_config settings)
      disk
      (save_config_if_unchanged config_json true fails_late settings revision disk)
    × (((save_config_if_unchanged config_json true fails_late settings revision disk).1 ≡ disk)
        ⊎ (bytes_of disk.file ≡ revision.bytes))
save_config_if_unchanged-Outcome_example =
    save_config_if_unchanged-Outcome config_json true fails_late settings revision disk
