-- ===== src/Servers/Handlers.antt =====
-- The server commands (src/cli/server.rs) on the world of the account commands.
use sshw.Base.{
  Bool, true, false, not, ◌&&◌, Text, codes, List, [], ◌∷◌, Option, none, some, if◌then◌else◌, same,
  text_eq, option_eq, is_some, contains_key,
}
use sshw.Errors.{config, unknown_server, app_error, Result, ok, err, and_then, ◌>>=◌}
use sshw.Home.{CredentialNamespace, login}
use sshw.Home.Keys.{Base64, new_account_credential_key}
use sshw.Config.{ServerConfig, AuthConfig}
use sshw.Config.File.{ConfigJson}
use sshw.Config.Equality.{config_eq}
use sshw.Access.{get_server, default_server_name}
use sshw.Credentials.{CredentialStore, CredentialKey}
use sshw.Accounts.{
  Answers, Saving, AccountChange, is_password_arg, account_changed, confirmed, first_failure,
  cleanup,
}
use sshw.Accounts.Handlers.{World, save, delete_password, save_or_take_back, new_auth}
use sshw.Servers.{
  AddArgs, RemoveArgs, admit_server, new_server, put_server, drop_server, stored_credentials,
  stale_credentials,
}

module _ (json : ConfigJson) (store : CredentialStore) where
  -- The loops that delete passwords: every one is tried, and the first error stays.
  unfoldable pub delete_all :
      List CredentialKey
      → Result (Unit {0})
      → World json store
      → World json store × Result (Unit {0})
  unfolding delete_password
  delete_all [] cleanup_error w = (w, cleanup_error)
  delete_all ((purpose, credential, user) ∷ entries) cleanup_error w =
      let (done, r) = delete_password json store purpose credential user w in
      delete_all entries (first_failure cleanup_error r) done

  unfoldable pub clean_up :
      Text → List CredentialKey → World json store → World json store × Result (Unit {0})
  unfolding delete_all
  clean_up action entries w =
      let (done, r) = delete_all entries (ok tt) w in (done, cleanup action r)

  unfoldable pub register_server :
      AddArgs
      → Saving
      → Option ServerConfig
      → AuthConfig × Option (Text × Text)
      → World json store
      → World json store × Result AccountChange
  unfolding new_server put_server account_changed save_or_take_back stale_credentials clean_up
  register_server args saving previous (auth, stored) w =
      let server = new_server args previous auth in
      let after = put_server args.name server w.settings in
      let changed = account_changed args.auth w.settings after in
      and_then
        (save_or_take_back json store login stored saving changed (record w { settings = after }))
        (λ u saved.
          and_then
            (clean_up (if is_some previous then codes "updated" else codes "added")
              (stale_credentials previous server) saved)
            (λ v done. (
              done,
              ok (record {
                updated = is_some previous;
                changed = changed;
                warned = is_password_arg args.auth && not store.is_persistent;
              }),
            )))

  add_server_with :
      AddArgs → Answers → Saving → Text → World json store → World json store × Result AccountChange
  unfolding new_auth register_server
  add_server_with args answers saving credential w =
      and_then (w, admit_server args answers w.settings)
        (λ previous admitted.
          and_then
            (new_auth json store args.auth args.password_stdin answers credential args.user
              admitted)
            (register_server args saving previous))

  unfoldable pub add_server :
      Base64
      → CredentialNamespace
      → Text
      → AddArgs
      → Answers
      → Saving
      → World json store
      → World json store × Result AccountChange
  unfolding add_server_with
  add_server b64 namespace nanos_pid_counter args answers saving w =
      add_server_with args answers saving
        (new_account_credential_key b64 namespace login args.name args.user nanos_pid_counter) w

  unfoldable pub remove_server :
      RemoveArgs → Answers → Saving → World json store → World json store × Result (Unit {0})
  unfolding save clean_up
  remove_server args answers saving w =
      and_then (w, get_server w.settings args.name)
        (λ server found.
          and_then (found, confirmed args.yes_flag answers.confirm (codes "removal cancelled"))
            (λ u asked.
              and_then
                (save json store saving
                  (record asked { settings = drop_server args.name asked.settings }))
                (λ v saved. clean_up (codes "removed") (stored_credentials server) saved)))

  -- The name of the default server, and whether it changed.
  set_default : Text → Saving → World json store → World json store × Result (Text × Bool)
  unfolding save
  set_default name saving w =
      if not (contains_key name w.settings.servers)
      then (w, err (app_error config (unknown_server name)))
      else if same w.settings.default (some name)
      then (w, ok (name, false))
      else and_then
          (save json store saving
            (record w { settings = record w.settings { default = some name } }))
          (λ u saved. (saved, ok (name, true)))

  unfoldable pub default_server :
      Option Text → Saving → World json store → World json store × Result (Text × Bool)
  unfolding set_default
  default_server none saving w = (w, default_server_name w.settings >>= λ name. ok (name, false))
  default_server (some name) saving w = set_default name saving w
