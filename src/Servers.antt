-- ===== src/Servers.antt =====
-- The server commands that change the configuration or the trusted hosts (src/cli/server.rs): their
-- arguments, what they admit, and the configurations that they make. What they print is left out,
-- but for the values that it shows.
pub mod Handlers
pub mod Kept
pub mod Stale
pub mod Trust
use sshw.Base.{
  ℕ, Bool, true, false, not, ◌&&◌, ◌||◌, Text, codes, List, [], ◌∷◌, ◌++◌, Option, none, some,
  if◌then◌else◌, ◌==◌, same, text_eq, option_eq, is_some, any, filter, Map, get, insert, remove,
  keys,
}
use sshw.Errors.{config, says, app_error, Result, ok, err, ◌>>=◌, ◌>>◌, map_err}
use sshw.Home.{CredentialPurpose, login, privilege, validate_server_name}
use sshw.Config.{
  SshwConfig, ServerConfig, AccountConfig, AuthConfig, password, agent, PrivilegeConfig,
  validate_account_user, validate_server_endpoint,
}
use sshw.Access.{get_server}
use sshw.Credentials.{CredentialKey, purpose_key}
use sshw.Accounts.{AuthArg, Answers, check_registration_auth, confirmed, previous_privilege}

-- `AddArgs` and `RemoveArgs` of src/cli/model.rs.
pub record AddArgs : Type 0 where
  pub name : Text
  pub host : Text
  pub port : ℕ
  pub user : Text
  pub auth : AuthArg
  pub force : Bool
  pub replace : Bool
  pub password_stdin : Bool

pub record RemoveArgs : Type 0 where
  pub name : Text
  pub yes_flag : Bool

unfoldable pub endpoint_changed : AddArgs → Option ServerConfig → Bool
endpoint_changed args none = false
endpoint_changed args (some previous) =
    not (same previous.host args.host) || not (previous.port == args.port)

check_endpoint : AddArgs → Option ServerConfig → Result (Unit {0})
unfolding endpoint_changed
check_endpoint args previous =
    if endpoint_changed args previous && not args.replace
    then err (app_error config (says (codes "changing a server's host or port requires --replace")))
    else ok tt

-- Everything before the first change: the server that was there, if any.
unfoldable pub admit_server : AddArgs → Answers → SshwConfig → Result (Option ServerConfig)
unfolding check_endpoint
admit_server args answers settings = do
  map_err config (validate_server_name args.name)
  map_err config (validate_account_user args.user)
  map_err config (validate_server_endpoint args.host args.port)
  check_endpoint args (get args.name settings.servers)
  check_registration_auth args.auth args.password_stdin
  confirmed (not (is_some (get args.name settings.servers)) || args.force)
      answers.confirm_with_option (codes "add cancelled")
  ok (get args.name settings.servers)

unfoldable pub kept_accounts : Bool → Option ServerConfig → Map AccountConfig
kept_accounts replace none = []
kept_accounts true (some previous) = []
kept_accounts false (some previous) = previous.accounts

unfoldable pub new_server : AddArgs → Option ServerConfig → AuthConfig → ServerConfig
unfolding kept_accounts
new_server args previous auth =
    let accounts = kept_accounts args.replace previous in
    record {
      host = args.host;
      port = args.port;
      default_user = args.user;
      accounts =
          insert args.user
            (record { auth = auth; privilege = previous_privilege (get args.user accounts) })
            accounts;
    }

unfoldable pub default_or : Text → Option Text → Option Text
default_or name none = some name
default_or name (some old) = some old

unfoldable pub put_server : Text → ServerConfig → SshwConfig → SshwConfig
unfolding default_or
put_server name server settings = record settings {
  servers = insert name server settings.servers;
  default = default_or name settings.default;
}

abbrev first : List Text → Option Text
first [] = none
first (name ∷ names) = some name

-- The configuration without a server: its default falls to the first one that is left.
unfoldable pub drop_server : Text → SshwConfig → SshwConfig
drop_server name settings =
    let servers = remove name settings.servers in
    record settings {
      servers = servers;
      default =
          if same settings.default (some name) then first (keys servers) else settings.default;
    }

login_credential : AuthConfig → Text → List CredentialKey
login_credential (password credential) user = purpose_key login credential user ∷ []
login_credential agent user = []

credential_of : Option Text → Text → List CredentialKey
credential_of none user = []
credential_of (some credential) user = purpose_key privilege credential user ∷ []

privilege_credential : Option PrivilegeConfig → List CredentialKey
unfolding credential_of
privilege_credential none = []
privilege_credential (some old) = credential_of old.credential old.user

unfoldable pub credentials_of : Map AccountConfig → List CredentialKey
unfolding login_credential privilege_credential
credentials_of [] = []
credentials_of ((user, account) ∷ accounts) =
    login_credential account.auth user
    ++ (privilege_credential account.privilege ++ credentials_of accounts)

unfoldable pub stored_credentials : ServerConfig → List CredentialKey
unfolding credentials_of
stored_credentials server = credentials_of server.accounts

unfoldable pub purpose_eq : CredentialPurpose → CredentialPurpose → Bool
purpose_eq login login = true
purpose_eq privilege privilege = true
purpose_eq _ _ = false

-- `==` of an entry's three parts.
unfoldable pub same_key : CredentialKey → CredentialKey → Bool
unfolding purpose_eq
same_key (purpose, credential, user) (other, other_credential, other_user) =
    purpose_eq purpose other && same credential other_credential && same user other_user

unfoldable pub stored_of : Option ServerConfig → List CredentialKey
unfolding stored_credentials
stored_of none = []
stored_of (some server) = stored_credentials server

-- The previous server's entries that the new one does not keep.
unfoldable pub stale_credentials : Option ServerConfig → ServerConfig → List CredentialKey
unfolding stored_of stored_credentials same_key filter any
stale_credentials previous server =
    filter (λ entry. not (any (same_key entry) (stored_credentials server))) (stored_of previous)
