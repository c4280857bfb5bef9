-- ===== src/Privilege/Set.antt =====
-- `set_privilege` (src/cli/privilege.rs).
use sshw.Base.{
  Bool, true, false, not, ◌&&◌, ◌||◌, Text, codes, Option, none, some, ◌∷◌, if◌then◌else◌, same,
  text_eq, option_eq, is_some,
}
use sshw.Errors.{
  config, auth, usage, says, context, app_error, Result, ok, err, ◌>>=◌, ◌>>◌, map_err, and_then,
}
use sshw.Home.{privilege, CredentialNamespace, validate_server_name}
use sshw.Home.Keys.{Base64, new_account_credential_key}
use sshw.Config.{
  SshwConfig, AccountConfig, PrivilegeConfig, PrivilegeMethod, sudo, su, validate_account_user,
}
use sshw.Config.Equality.{config_eq}
use sshw.Config.File.{ConfigJson}
use sshw.Credentials.{CredentialStore}
use sshw.Accounts.{Answers, Saving, confirmed, cleanup}
use sshw.Accounts.Handlers.{World, save_or_take_back, delete_password}
use sshw.Privilege.{PrivilegeSetArgs, validate_privilege_password, find_account, put_privilege}

-- What a change reports.
pub record PrivilegeChange : Type 0 where
  pub account : Text
  pub privilege : PrivilegeConfig
  pub added : Bool
  pub changed : Bool
  pub warned : Bool

is_su : PrivilegeMethod → Bool
is_su sudo = false
is_su su = true

target_context : Result (Unit {0}) → Result (Unit {0})
target_context (ok u) = ok tt
target_context (err e) = err (context (says (codes "invalid privilege target user")) ∷ e)

-- Everything before the first change.
unfoldable pub admit_privilege :
    PrivilegeSetArgs → Answers → SshwConfig → Result (Text × AccountConfig)
unfolding is_su target_context
admit_privilege args answers settings =
    if args.no_password && (args.password_stdin || is_su args.method)
    then err (
        app_error usage
          (says (codes "--no-password requires sudo and cannot be combined with --password-stdin")))
    else (map_err config (validate_server_name args.name)
        >> (map_err config (target_context (validate_account_user args.user))
            >> (find_account args.name args.account settings >>= λ (user, found).
                confirmed (not (is_some found.privilege) || args.force) answers.confirm_with_option
                  (codes "privilege update cancelled")
                >> ok (user, found))))

unfoldable pub read_privilege_password : Bool → Answers → Result Text
read_privilege_password from_stdin answers = do
  password ← map_err auth (if from_stdin then answers.password_stdin else answers.password)
  validate_privilege_password password
  ok password

unfoldable pub new_privilege : PrivilegeSetArgs → Text → PrivilegeConfig
new_privilege args credential = record {
  method = args.method;
  user = args.user;
  credential = if args.no_password then none else some credential;
  no_password = args.no_password;
}

-- The credential of the privilege before, when the new one does not use it.
unfoldable pub replaced : Option PrivilegeConfig → PrivilegeConfig → Option (Text × Text)
replaced none current = none
replaced (some previous) current = elim (previous.credential) [
  | none ↦ none
  | some credential ↦
      if not (same previous.credential current.credential) || not (same previous.user current.user)
      then some (credential, previous.user)
      else none
]

unfoldable pub privilege_changed : Bool → SshwConfig → SshwConfig → Bool
privilege_changed no_password before after = not no_password || not (same after before)

module _ (json : ConfigJson) (store : CredentialStore) where
  unfoldable pub store_privilege :
      Text
      → Text
      → Result Text
      → World json store
      → World json store × Result (Option (Text × Text))
  store_privilege credential user (err e) w = (w, err e)
  store_privilege credential user (ok secret) w =
      let (s, r) = store.set_password_for privilege credential user secret w.credentials in
      (record w { credentials = s }, map_err auth r >> ok (some (credential, user)))

  unfoldable pub stored_credential :
      Bool
      → Text
      → Text
      → Result Text
      → World json store
      → World json store × Result (Option (Text × Text))
  unfolding store_privilege
  stored_credential true credential user secret w = (w, ok none)
  stored_credential false credential user secret w = store_privilege credential user secret w

  unfoldable pub drop_replaced :
      Option (Text × Text) → World json store → World json store × Result (Unit {0})
  unfolding delete_password
  drop_replaced none w = (w, ok tt)
  drop_replaced (some (credential, user)) w =
      let (done, r) = delete_password json store privilege credential user w in
      (done, cleanup (codes "set") r)

  -- From the change in memory on.
  unfoldable pub assign :
      PrivilegeSetArgs
      → Saving
      → Text
      → Option PrivilegeConfig
      → PrivilegeConfig
      → Option (Text × Text)
      → World json store
      → World json store × Result PrivilegeChange
  unfolding privilege_changed save_or_take_back replaced drop_replaced
  assign args saving login_user previous new stored w =
      let after = put_privilege args.name login_user (some new) w.settings in
      let changed = privilege_changed args.no_password w.settings after in
      and_then
        (save_or_take_back json store privilege stored saving changed
          (record w { settings = after }))
        (λ u saved. and_then (drop_replaced (replaced previous new) saved) (λ v done. (
          done,
          ok (record {
            account = login_user;
            privilege = new;
            added = not (is_some previous);
            changed = changed;
            warned = not args.no_password && not store.is_persistent;
          }),
        )))

  set_found :
      PrivilegeSetArgs
      → Answers
      → Saving
      → (Text → Text)
      → Text × AccountConfig
      → World json store
      → World json store × Result PrivilegeChange
  unfolding stored_credential assign new_privilege
  set_found args answers saving key_for (login_user, found) w =
      let new = new_privilege args (key_for login_user) in
      and_then
        (stored_credential args.no_password (key_for login_user) args.user
          (read_privilege_password args.password_stdin answers) w)
        (assign args saving login_user found.privilege new)

  unfoldable pub set_privilege :
      Base64
      → CredentialNamespace
      → Text
      → PrivilegeSetArgs
      → Answers
      → Saving
      → World json store
      → World json store × Result PrivilegeChange
  unfolding set_found
  set_privilege b64 namespace nanos_pid_counter args answers saving w =
      and_then (w, admit_privilege args answers w.settings)
        (set_found args answers saving (λ login_user.
          new_account_credential_key b64 namespace privilege args.name login_user
            nanos_pid_counter))
