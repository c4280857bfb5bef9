-- ===== src/Privilege.antt =====
-- The privilege commands that change the configuration (src/cli/privilege.rs), on the world of the
-- account commands. What they print is left out, but for whether something changed.
pub mod Unused
pub mod Cleared
pub mod Set
pub mod Replaced
pub mod Execution
use sshw.Base.{
  ℕ, Bool, true, false, not, ◌&&◌, ◌||◌, Text, codes, List, [], ◌∷◌, Option, none, some,
  if◌then◌else◌, ◌==◌, same, text_eq, option_eq, any, is_empty, is_some, get, insert,
}
use sshw.Errors.{
  ErrorKind, config, auth, usage, Message, says, unknown_account, Layer, context, Error, app_error,
  Result, ok, err, ◌>>=◌, ◌>>◌, map_err, and_then,
}
use sshw.Home.{CredentialPurpose, privilege, CredentialNamespace, validate_server_name}
use sshw.Home.Keys.{Base64, new_account_credential_key}
use sshw.Config.{
  SshwConfig, ServerConfig, AccountConfig, PrivilegeConfig, PrivilegeMethod, sudo, su, account,
  validate_account_user,
}
use sshw.Config.Equality.{config_eq}
use sshw.Config.File.{ConfigJson}
use sshw.Access.{get_server, unwrap_or}
use sshw.Credentials.{CredentialStore}
use sshw.Accounts.{Answers, Saving, confirmed, cleanup, modify_server}
use sshw.Accounts.Handlers.{World, save, save_or_take_back, delete_password}

pub record PrivilegeSetArgs : Type 0 where
  pub name : Text
  pub account : Option Text
  pub method : PrivilegeMethod
  pub user : Text
  pub password_stdin : Bool
  pub no_password : Bool
  pub force : Bool

pub record PrivilegeClearArgs : Type 0 where
  pub name : Text
  pub account : Option Text
  pub yes_flag : Bool

unfoldable pub validate_privilege_password : Text → Result (Unit {0})
validate_privilege_password password =
    if is_empty password
    then err (app_error auth (says (codes "password cannot be empty")))
    else if any (λ c. c == 10 || c == 13) password
    then err (app_error auth (says (codes "privilege password must be a single line")))
    else ok tt

-- The account that a command is about, and its name.
of_account : Text → Text → Option AccountConfig → Result (Text × AccountConfig)
of_account name user none = err (app_error config (unknown_account name user))
of_account name user (some found) = ok (user, found)

unfoldable pub find_account : Text → Option Text → SshwConfig → Result (Text × AccountConfig)
unfolding of_account
find_account name requested settings = do
  server ← get_server settings name
  let user = unwrap_or requested server.default_user
  of_account name user (account server user)

-- The assignment through `get_mut`; an absent account, at which the source would panic, was refused
-- before.
unfoldable pub put_in_server : Text → Option PrivilegeConfig → ServerConfig → ServerConfig
put_in_server user new server = elim (get user server.accounts) [
  | none ↦ server
  | some old ↦ record server {
    accounts = insert user (record old { privilege = new }) server.accounts;
  }
]

unfoldable pub put_privilege : Text → Text → Option PrivilegeConfig → SshwConfig → SshwConfig
unfolding modify_server put_in_server
put_privilege name user new = modify_server name (put_in_server user new)

module _ (json : ConfigJson) (store : CredentialStore) where
  -- The password of a cleared privilege.
  drop_cleared : PrivilegeConfig → World json store → World json store × Result Bool
  unfolding delete_password
  drop_cleared old w = elim (old.credential) [
    | none ↦ (w, ok true)
    | some credential ↦
        (let (done, r) = delete_password json store privilege credential old.user w in
          (done, cleanup (codes "cleared") r >> ok true))
  ]

  clear_some :
      PrivilegeClearArgs
      → Answers
      → Saving
      → Text
      → PrivilegeConfig
      → World json store
      → World json store × Result Bool
  unfolding drop_cleared
  clear_some args answers saving user old w =
      and_then (w, confirmed args.yes_flag answers.confirm (codes "privilege clear cancelled"))
        (λ u asked.
          and_then
            (save json store saving
              (record asked { settings = put_privilege args.name user none asked.settings }))
            (λ v saved. drop_cleared old saved))

  clear_found :
      PrivilegeClearArgs
      → Answers
      → Saving
      → Text × AccountConfig
      → World json store
      → World json store × Result Bool
  unfolding clear_some
  clear_found args answers saving (user, found) w = elim (found.privilege) [
    | none ↦ (w, ok false)
    | some old ↦ clear_some args answers saving user old w
  ]

  -- Whether there was a privilege to clear.
  unfoldable pub clear_privilege :
      PrivilegeClearArgs → Answers → Saving → World json store → World json store × Result Bool
  unfolding clear_found
  clear_privilege args answers saving w =
      and_then (w, find_account args.name args.account w.settings) (clear_found args answers saving)
