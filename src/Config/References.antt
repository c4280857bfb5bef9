-- ===== src/Config/References.antt =====
-- `validate_config_credential_references` (src/config.rs): every account's credential is its own.
pub mod Unique
use sshw.Base.{
  ℕ, Bool, true, false, not, ◌&&◌, ◌||◌, Text, codes, List, [], ◌∷◌, ◌++◌, Option, none, some,
  if◌then◌else◌, Map, get, insert, contains_key,
}
use sshw.Errors.{Error, Result, ok, err, ensure, ◌>>=◌, ◌>>◌}
use sshw.Home.{
  CredentialPurpose, login, privilege, label, CredentialNamespace, validate_server_name,
}
use sshw.Home.Keys.{Base64, account_credential_key_matches, credential_key_matches}
use sshw.Config.{
  AuthConfig, password, agent, PrivilegeConfig, AccountConfig, ServerConfig, SshwConfig,
  plain_error, validate, validate_account_user, validate_server_endpoint,
}

-- The label of an owner, `login:server/user`.
unfoldable pub owner_label : CredentialPurpose → Text → Text → Text
owner_label purpose server user = label purpose ++ b':' ∷ (server ++ b'/' ∷ user)

-- The owners so far, by credential.
abbrev pub Owners : Type 0
Owners = Map Text

module _ (b64 : Base64) (namespace : CredentialNamespace) where
  claim : CredentialPurpose → Text → Text → Text → Owners → Option Text → Result Owners
  claim purpose server user credential owners (some previous) =
      err (plain_error (codes "credential key collision"))
  claim purpose server user credential owners none =
      ok (insert credential (owner_label purpose server user) owners)

  unfoldable pub validate_credential_owner :
      CredentialPurpose → Text → Text → Text → Owners → Result Owners
  unfolding claim
  validate_credential_owner purpose server user credential owners =
      if not (account_credential_key_matches b64 namespace purpose server user credential)
        && not (credential_key_matches b64 namespace purpose server credential)
      then err
          (plain_error (codes "credential reference does not belong to account in the active home"))
      else claim purpose server user credential owners (get credential owners)

  validate_auth : Text → Text → AuthConfig → Owners → Result Owners
  validate_auth server user agent owners = ok owners
  validate_auth server user (password credential) owners =
      validate_credential_owner login server user credential owners

  validate_privilege_credential : Text → Text → Option Text → Owners → Result Owners
  validate_privilege_credential server user none owners = ok owners
  validate_privilege_credential server user (some credential) owners =
      validate_credential_owner privilege server user credential owners

  validate_privilege : Text → Text → Option PrivilegeConfig → Owners → Result Owners
  unfolding validate_privilege_credential
  validate_privilege server user none owners = ok owners
  validate_privilege server user (some p) owners = do
    validate p
    validate_privilege_credential server user p.credential owners

  unfoldable pub validate_account : Text → Text → AccountConfig → Owners → Result Owners
  unfolding validate_auth validate_privilege
  validate_account server user account owners = do
    validate_account_user user
    owners' ← validate_auth server user account.auth owners
    validate_privilege server user account.privilege owners'

  unfoldable pub validate_accounts : Text → Map AccountConfig → Owners → Result Owners
  validate_accounts server [] owners = ok owners
  validate_accounts server ((user, account) ∷ accounts) owners =
      validate_account server user account owners >>= λ owners'.
      validate_accounts server accounts owners'

  unfoldable pub validate_server : Text → ServerConfig → Owners → Result Owners
  validate_server name server owners = do
    validate_server_name name
    validate_server_endpoint server.host server.port
    ensure (contains_key server.default_user server.accounts)
        (plain_error (codes "default user is not registered for server"))
    validate_accounts name server.accounts owners

  unfoldable pub validate_servers : Map ServerConfig → Owners → Result Owners
  validate_servers [] owners = ok owners
  validate_servers ((name, server) ∷ servers) owners =
      validate_server name server owners >>= λ owners'. validate_servers servers owners'

  validate_default : Option Text → Map ServerConfig → Result (Unit {0})
  validate_default none servers = ok tt
  validate_default (some default) servers = do
    validate_server_name default
    ensure (contains_key default servers)
        (plain_error (codes "default server is not present in the config"))

  unfoldable pub validate_config_credential_references : SshwConfig → Result (Unit {0})
  unfolding validate_default
  validate_config_credential_references config = do
    validate_default config.default config.servers
    owners ← validate_servers config.servers []
    ok tt
