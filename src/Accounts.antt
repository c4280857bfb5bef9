-- ===== src/Accounts.antt =====
-- The account commands that change the configuration (src/cli/account.rs). The answers of the prompt,
-- the credential store and the JSON printer are arguments; what the commands print is left out,
-- but for the values that it shows.
pub mod Superseded
pub mod Handlers
pub mod Kept
pub mod Replaced
use sshw.Base.{
  ℕ, Bool, true, false, not, ◌&&◌, ◌||◌, Text, codes, List, [], ◌∷◌, Option, none, some,
  if◌then◌else◌, same, text_eq, is_empty, is_some, get, insert, remove, contains_key,
}
use sshw.Errors.{
  ErrorKind, config, auth, Message, says, unknown_server, unknown_account, default_account_kept,
  Error, app_error, credential_cleanup_error, write_was_published, Result, ok, err, ◌>>=◌, ◌>>◌,
  map_err, and_then,
}
use sshw.Storage.{Stage, Disk}
use sshw.Home.{CredentialPurpose, login, privilege, CredentialNamespace, validate_server_name}
use sshw.Home.Keys.{Base64, new_account_credential_key}
use sshw.Config.{
  SshwConfig, ServerConfig, AccountConfig, AuthConfig, password, agent, PrivilegeConfig, account,
  validate_account_user,
}
use sshw.Config.Equality.{config_eq}
use sshw.Config.File.{ConfigJson, ConfigRevision, save_config_if_unchanged}
use sshw.Access.{get_server}
use sshw.Credentials.{CredentialStore}

pub data AuthArg : Type 0 where
  password_arg agent_arg : AuthArg

pub record AccountAddArgs : Type 0 where
  pub name : Text
  pub user : Text
  pub auth : AuthArg
  pub password_stdin : Bool
  pub force : Bool

pub record AccountRemoveArgs : Type 0 where
  pub name : Text
  pub user : Text
  pub yes_flag : Bool

-- What the prompter answers when it is asked.
pub record Answers : Type 0 where
  pub confirm_with_option : Result Bool
  pub confirm : Result Bool
  pub password : Result Text
  pub password_stdin : Result Text

-- What the disk answers to a save, and the revision that the command loaded.
pub record Saving : Type 0 where
  pub readable : Bool
  pub fails : Stage → Bool
  pub revision : ConfigRevision

-- The account as a change reports it.
pub record AccountChange : Type 0 where
  pub updated : Bool
  pub changed : Bool
  pub warned : Bool

unfoldable pub check_registration_auth : AuthArg → Bool → Result (Unit {0})
check_registration_auth agent_arg true =
    err (app_error config (says (codes "--password-stdin cannot be used with --auth agent")))
check_registration_auth _ _ = ok tt

-- A confirmation that is asked for unless it was given in advance.
unfoldable pub confirmed : Bool → Result Bool → Text → Result (Unit {0})
confirmed true answer cancelled = ok tt
confirmed false (err e) cancelled = map_err config (err e)
confirmed false (ok true) cancelled = ok tt
confirmed false (ok false) cancelled = err (app_error config (says cancelled))

-- The change of one server that `servers.get_mut` reaches; an absent server, at which the source
-- would panic, was refused before.
unfoldable pub modify_server : Text → (ServerConfig → ServerConfig) → SshwConfig → SshwConfig
modify_server name change settings = elim (get name settings.servers) [
  | none ↦ settings
  | some server ↦ record settings { servers = insert name (change server) settings.servers }
]

unfoldable pub previous_privilege : Option AccountConfig → Option PrivilegeConfig
previous_privilege none = none
previous_privilege (some account) = account.privilege

unfoldable pub previous_auth : Option AccountConfig → Option AuthConfig
previous_auth none = none
previous_auth (some account) = some account.auth

abbrev pub is_password_arg : AuthArg → Bool
is_password_arg password_arg = true
is_password_arg agent_arg = false

-- Everything before the first change: the account that was there, if any.
unfoldable pub admit : AccountAddArgs → Answers → SshwConfig → Result (Option AccountConfig)
admit args answers settings = do
  map_err config (validate_server_name args.name)
  map_err config (validate_account_user args.user)
  server ← get_server settings args.name
  check_registration_auth args.auth args.password_stdin
  confirmed (not (is_some (account server args.user)) || args.force) answers.confirm_with_option
      (codes "account update cancelled")
  ok (account server args.user)

non_empty : Text → Result Text
non_empty text =
    if is_empty text
    then err (app_error auth (says (codes "password cannot be empty")))
    else ok text

unfoldable pub read_password : Bool → Answers → Result Text
unfolding non_empty
read_password true answers = map_err auth answers.password_stdin >>= non_empty
read_password false answers = map_err auth answers.password >>= non_empty

removable : AccountRemoveArgs → ServerConfig → Result (Unit {0})
removable args server =
    if same server.default_user args.user
    then err (app_error config (default_account_kept args.name args.user))
    else ok tt

known : AccountRemoveArgs → Option AccountConfig → Result AccountConfig
known args none = err (app_error config (unknown_account args.name args.user))
known args (some account) = ok account

unfoldable pub admit_removal : AccountRemoveArgs → Answers → SshwConfig → Result AccountConfig
unfolding removable known
admit_removal args answers settings = do
  server ← get_server settings args.name
  removable args server
  removed ← known args (account server args.user)
  confirmed args.yes_flag answers.confirm (codes "account removal cancelled")
  ok removed

-- A failed call leaves its error for later; the first one stays.
unfoldable pub first_failure : Result (Unit {0}) → Result (Unit {0}) → Result (Unit {0})
first_failure (ok u) r = r
first_failure (err e) r = err e

unfoldable pub cleanup : Text → Result (Unit {0}) → Result (Unit {0})
cleanup action (ok u) = ok tt
cleanup action (err e) = err (credential_cleanup_error e action)

unfoldable pub drop_account : Text → Text → SshwConfig → SshwConfig
unfolding modify_server
drop_account name user =
    modify_server name (λ server. record server { accounts = remove user server.accounts })

unfoldable pub put_account : Text → Text → AccountConfig → SshwConfig → SshwConfig
unfolding modify_server
put_account name user new =
    modify_server name (λ server. record server { accounts = insert user new server.accounts })

unfoldable pub account_changed : AuthArg → SshwConfig → SshwConfig → Bool
account_changed arg before after = is_password_arg arg || not (same after before)

-- The password that the account had before, when the new authentication does not use it.
unfoldable pub superseded : Option AuthConfig → AuthConfig → Option Text
superseded (some (password old)) (password new) = if same new old then none else some old
superseded (some (password old)) agent = some old
superseded _ _ = none
