-- ===== src/Config/Migrate.antt =====
-- `migrate_v1` (src/config.rs): a server of version 1 becomes a server with one account.
pub mod Preserves
use sshw.Base.{ℕ, Text, codes, List, [], ◌∷◌, Option, none, some, Map, get, insert, remove, keys}
use sshw.Errors.{Result, ok, err}
use sshw.Config.{
  config_version, CredentialBackend, AuthConfig, PrivilegeConfig, AccountConfig, ServerConfig,
  SshwConfig, plain_error,
}

pub record ServerConfigV1 : Type 0 where
  pub host : Text
  pub port : ℕ
  pub user : Text
  pub auth : AuthConfig

pub record ConfigV1Wire : Type 0 where
  pub default : Option Text
  pub servers : Map ServerConfigV1
  pub privileges : Map PrivilegeConfig
  pub credential_backend : CredentialBackend

-- The body of the loop, on one server.
unfoldable pub migrate_server : ServerConfigV1 → Option PrivilegeConfig → ServerConfig
migrate_server server privilege = record {
  host = server.host;
  port = server.port;
  default_user = server.user;
  accounts = insert server.user (record { auth = server.auth; privilege = privilege }) [];
}

-- The loop: the privileges that are left and the servers so far.
unfoldable pub migrate_servers :
    Map ServerConfigV1
    → Map PrivilegeConfig
    → Map ServerConfig
    → Map ServerConfig × Map PrivilegeConfig
migrate_servers [] privileges servers = (servers, privileges)
migrate_servers ((name, server) ∷ rest) privileges servers =
    migrate_servers rest (remove name privileges)
      (insert name (migrate_server server (get name privileges)) servers)

migrated : ConfigV1Wire → Map ServerConfig → List Text → Result SshwConfig
migrated wire servers [] = ok (record {
  version = config_version;
  default = wire.default;
  servers = servers;
  credential_backend = wire.credential_backend;
})
migrated wire servers (orphan ∷ more) =
    err (plain_error (codes "privilege configuration has no matching server"))

unfoldable pub migrate_v1 : ConfigV1Wire → Result SshwConfig
unfolding migrated
migrate_v1 wire =
    let (servers, privileges) = migrate_servers wire.servers wire.privileges [] in
    migrated wire servers (keys privileges)
