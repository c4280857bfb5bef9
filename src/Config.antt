-- ===== src/Config.antt =====
-- The configuration (src/config.rs): servers, accounts, privilege, and the checks of single values.
-- Its versions, its credential references and its file are in the modules below.
pub mod Migrate
pub mod References
pub mod File
pub mod Equality
use sshw.Base.{
  ℕ, Bool, true, false, Text, codes, List, [], ◌∷◌, Option, none, some, if◌then◌else◌, ◌==◌, any,
  is_empty, is_control, trim, Map, get, insert,
}
use sshw.Errors.{Message, says, Layer, message, Error, Result, ok, err, ◌>>=◌, ◌>>◌}

-- `CONFIG_VERSION` and `LEGACY_CONFIG_VERSION`.
abbrev pub config_version : ℕ
config_version = 2

abbrev pub legacy_config_version : ℕ
legacy_config_version = 1

pub data CredentialBackend : Type 0 where
  native session_only : CredentialBackend

pub data AuthConfig : Type 0 where
  password : Text → AuthConfig
  agent : AuthConfig

pub data PrivilegeMethod : Type 0 where
  sudo su : PrivilegeMethod

pub record PrivilegeConfig : Type 0 where
  pub method : PrivilegeMethod
  pub user : Text
  pub credential : Option Text
  pub no_password : Bool

pub record AccountConfig : Type 0 where
  pub auth : AuthConfig
  pub privilege : Option PrivilegeConfig

-- `port` is a `u16`.
pub record ServerConfig : Type 0 where
  pub host : Text
  pub port : ℕ
  pub default_user : Text
  pub accounts : Map AccountConfig

pub record SshwConfig : Type 0 where
  pub version : ℕ
  pub default : Option Text
  pub servers : Map ServerConfig
  pub credential_backend : CredentialBackend

abbrev pub default_config : SshwConfig
default_config = record {
  version = config_version;
  default = none;
  servers = [];
  credential_backend = native;
}

unfoldable pub single_account : Text → ℕ → Text → AuthConfig → ServerConfig
single_account host port user auth = record {
  host = host;
  port = port;
  default_user = user;
  accounts = insert user (record { auth = auth; privilege = none }) [];
}

unfoldable pub account : ServerConfig → Text → Option AccountConfig
account server user = get user server.accounts

unfoldable pub default_account : ServerConfig → Option AccountConfig
unfolding account
default_account server = account server server.default_user

abbrev pub plain_error : Text → Error
plain_error text = message (says text) ∷ []

unfoldable pub validate_user_value : Text → Result (Unit {0})
validate_user_value user =
    if is_empty (trim user)
    then err (plain_error (codes "user cannot be empty"))
    else if any is_control user
    then err (plain_error (codes "user must not contain control characters"))
    else ok tt

unfoldable pub validate_account_user : Text → Result (Unit {0})
unfolding validate_user_value
validate_account_user = validate_user_value

unfoldable pub validate_server_endpoint : Text → ℕ → Result (Unit {0})
validate_server_endpoint host port =
    if is_empty (trim host)
    then err (plain_error (codes "host must not be empty or whitespace"))
    else if any is_control host
    then err (plain_error (codes "host must not contain control characters"))
    else if port == 0
    then err (plain_error (codes "port must be between 1 and 65535"))
    else ok tt

-- The `match` of `PrivilegeConfig::validate`.
validate_method : Bool → PrivilegeMethod → Option Text → Result (Unit {0})
validate_method true sudo none = ok tt
validate_method false method (some credential) = ok tt
validate_method true su credential = err (plain_error (codes "no_password requires method sudo"))
validate_method true sudo (some credential) =
    err (plain_error (codes "no_password cannot include a credential"))
validate_method false method none =
    err (plain_error (codes "missing field `credential` for password privilege"))

unfoldable pub validate : PrivilegeConfig → Result (Unit {0})
unfolding validate_method
validate privilege = do
  validate_user_value privilege.user
  validate_method privilege.no_password privilege.method privilege.credential

pub data AuthKind : Type 0 where
  password_kind agent_kind : AuthKind

-- `Deserialize for AuthConfig`, from its wire format.
unfoldable pub auth_of_wire : AuthKind → Option Text → Result AuthConfig
auth_of_wire password_kind (some credential) = ok (password credential)
auth_of_wire password_kind none = err (plain_error (codes "missing field `credential`"))
auth_of_wire agent_kind none = ok agent
auth_of_wire agent_kind (some credential) =
    err (plain_error (codes "unknown field `credential` for agent authentication"))

-- `Deserialize for PrivilegeConfig`: what is read is validated.
unfoldable pub privilege_of_wire : PrivilegeConfig → Result PrivilegeConfig
unfolding validate
privilege_of_wire wire = do validate wire; ok wire
