-- ===== src/Accounts/Handlers.antt =====
-- The account commands that change the configuration (src/cli/account.rs), on the configuration
-- file, the credential store and the configuration in memory.
use sshw.Base.{
  Bool, true, false, not, ◌&&◌, Text, codes, Option, none, some, if◌then◌else◌, same, text_eq,
  is_some, contains_key,
}
use sshw.Errors.{
  config, auth, unknown_account, Error, app_error, write_was_published, Result, ok, err, ◌>>=◌,
  ◌>>◌, map_err, and_then,
}
use sshw.Storage.{Disk}
use sshw.Home.{CredentialPurpose, login, privilege, CredentialNamespace}
use sshw.Home.Keys.{Base64, new_account_credential_key}
use sshw.Config.{
  SshwConfig, ServerConfig, AccountConfig, AuthConfig, password, agent, PrivilegeConfig,
}
use sshw.Config.Equality.{config_eq}
use sshw.Config.File.{ConfigJson, save_config_if_unchanged}
use sshw.Access.{get_server}
use sshw.Credentials.{CredentialStore}
use sshw.Accounts.{
  AuthArg, AccountAddArgs, AccountRemoveArgs, Answers, Saving, AccountChange, modify_server,
  previous_privilege, previous_auth, is_password_arg, admit, read_password, admit_removal,
  first_failure, cleanup, drop_account, put_account, account_changed, superseded, password_arg,
  agent_arg,
}

module _ (json : ConfigJson) (store : CredentialStore) where
  -- The configuration file, the credential store, and the configuration in memory.
  pub record World : Type 0 where
    pub disk : Disk
    pub credentials : store.State
    pub settings : SshwConfig

  -- `save_config_if_unchanged(..).with_error_kind(ErrorKind::Config)`
  unfoldable pub save : Saving → World → World × Result (Unit {0})
  save saving w =
      let (r, disk) =
        save_config_if_unchanged json saving.readable saving.fails w.settings saving.revision
          w.disk in
      (record w { disk = disk }, map_err config r)

  unfoldable pub delete_password :
      CredentialPurpose → Text → Text → World → World × Result (Unit {0})
  delete_password purpose credential user w =
      let (s, r) = store.delete_password_for purpose credential user w.credentials in
      (record w { credentials = s }, r)

  -- `let _ = ..`: what deleting answers does not matter.
  ignoring : Error → World × Result (Unit {0}) → World × Result (Unit {0})
  ignoring e (w, r) = (w, err e)

  -- A save that failed before it was published takes the new password back.
  after_save :
      CredentialPurpose
      → Option (Text × Text)
      → World × Result (Unit {0})
      → World × Result (Unit {0})
  unfolding delete_password ignoring
  after_save purpose stored (w, ok u) = (w, ok tt)
  after_save purpose none (w, err e) = (w, err e)
  after_save purpose (some (credential, user)) (w, err e) =
      if write_was_published e
      then (w, err e)
      else ignoring e (delete_password purpose credential user w)

  unfoldable pub save_or_take_back :
      CredentialPurpose → Option (Text × Text) → Saving → Bool → World → World × Result (Unit {0})
  unfolding save after_save
  save_or_take_back purpose stored saving false w = (w, ok tt)
  save_or_take_back purpose stored saving true w = after_save purpose stored (save saving w)

  -- The new password goes into the store.
  unfoldable pub store_new :
      Text → Text → Result Text → World → World × Result (AuthConfig × Option (Text × Text))
  store_new credential user (err e) w = (w, err e)
  store_new credential user (ok secret) w =
      let (s, r) = store.set_password_for login credential user secret w.credentials in
      (
        record w { credentials = s },
        map_err auth r >> ok (password credential, some (credential, user)),
      )

  -- The new authentication, and the credential that was stored for it.
  unfoldable pub new_auth :
      AuthArg
      → Bool
      → Answers
      → Text
      → Text
      → World
      → World × Result (AuthConfig × Option (Text × Text))
  unfolding store_new
  new_auth agent_arg password_stdin answers credential user w = (w, ok (agent, none))
  new_auth password_arg password_stdin answers credential user w =
      store_new credential user (read_password password_stdin answers) w

  unfoldable pub drop_superseded : Option Text → Text → World → World × Result (Unit {0})
  unfolding delete_password
  drop_superseded none user w = (w, ok tt)
  drop_superseded (some credential) user w =
      let (done, r) = delete_password login credential user w in (done, cleanup (codes "updated") r)

  -- From the change in memory on. The authentication that the source reads back from the changed
  -- configuration is the one that was put there.
  unfoldable pub register :
      AccountAddArgs
      → Saving
      → Option AccountConfig
      → AuthConfig × Option (Text × Text)
      → World
      → World × Result AccountChange
  unfolding put_account account_changed save_or_take_back superseded drop_superseded
  register args saving previous (new_login, stored) w =
      let new : AccountConfig = record {
        auth = new_login;
        privilege = previous_privilege previous;
      } in
      let after = put_account args.name args.user new w.settings in
      let changed = account_changed args.auth w.settings after in
      and_then (save_or_take_back login stored saving changed (record w { settings = after }))
        (λ u saved.
          and_then (drop_superseded (superseded (previous_auth previous) new_login) args.user saved)
            (λ v done. (
              done,
              ok (record {
                updated = is_some previous;
                changed = changed;
                warned = is_password_arg args.auth && not store.is_persistent;
              }),
            )))

  -- `credential` is the key that `new_account_credential_key` makes.
  add_with_key : AccountAddArgs → Answers → Saving → Text → World → World × Result AccountChange
  unfolding new_auth register
  add_with_key args answers saving credential w =
      and_then (w, admit args answers w.settings)
        (λ previous admitted.
          and_then (new_auth args.auth args.password_stdin answers credential args.user admitted)
            (λ new_login ready. register args saving previous new_login ready))

  unfoldable pub add_account :
      Base64
      → CredentialNamespace
      → Text
      → AccountAddArgs
      → Answers
      → Saving
      → World
      → World × Result AccountChange
  unfolding add_with_key
  add_account b64 namespace nanos_pid_counter args answers saving w =
      add_with_key args answers saving
        (new_account_credential_key b64 namespace login args.name args.user nanos_pid_counter) w

  -- Whether the default changed.
  default_user_set : Text → ServerConfig → Saving → World → Text → World × Result Bool
  unfolding save modify_server
  default_user_set name server saving w user =
      if same server.default_user user
      then (w, ok false)
      else and_then
          (save saving (record w {
            settings = modify_server name (λ old. record old { default_user = user }) w.settings;
          }))
          (λ u saved. (saved, ok true))

  has_account : Text → Text → ServerConfig → Result ServerConfig
  has_account name user server =
      if contains_key user server.accounts
      then ok server
      else err (app_error config (unknown_account name user))

  unfoldable pub default_account : Text → Text → Saving → World → World × Result Bool
  unfolding default_user_set has_account
  default_account name user saving w =
      and_then (w, get_server w.settings name >>= has_account name user)
        (λ server known_server. default_user_set name server saving known_server user)

  -- Both deletions are tried.
  delete_login : AccountConfig → Text → World → World × Result (Unit {0})
  unfolding delete_password
  delete_login removed user w = elim (removed.auth) [
    | password credential ↦ delete_password login credential user w
    | agent ↦ (w, ok tt)
  ]

  delete_privilege : Option PrivilegeConfig → World → World × Result (Unit {0})
  unfolding delete_password
  delete_privilege none w = (w, ok tt)
  delete_privilege (some old) w = elim (old.credential) [
    | some credential ↦ delete_password privilege credential old.user w
    | none ↦ (w, ok tt)
  ]

  unfoldable pub delete_credentials : AccountConfig → Text → World → World × Result (Unit {0})
  unfolding delete_login delete_privilege
  delete_credentials removed user w =
      let (tried, r) = delete_login removed user w in
      let (done, q) = delete_privilege removed.privilege tried in
      (done, cleanup (codes "removed") (first_failure r q))

  unfoldable pub remove_account :
      AccountRemoveArgs → Answers → Saving → World → World × Result (Unit {0})
  unfolding save drop_account delete_credentials
  remove_account args answers saving w =
      and_then (w, admit_removal args answers w.settings)
        (λ removed admitted.
          and_then
            (save saving
              (record admitted { settings = drop_account args.name args.user admitted.settings }))
            (λ u saved. delete_credentials removed args.user saved))
