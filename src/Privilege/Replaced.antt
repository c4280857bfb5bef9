-- ===== src/Privilege/Replaced.antt =====
-- Setting a privilege loses no password that is in use.
use sshw.Base.{
  [], subst, Bool, true, false, Text, Option, none, some, ◌≡◌, ◌⊎◌, inl, inr, refl, sym, ap, ◌∙◌,
  arith, text_eq, option_eq, get,
}
use sshw.Errors.{auth, Result, ok, err, map_err, and_then, ◌>>◌, Result-cases}
use sshw.Home.{CredentialPurpose, privilege, CredentialNamespace}
use sshw.Home.Keys.{Base64, new_account_credential_key}
use sshw.Config.{SshwConfig, AccountConfig, PrivilegeConfig}
use sshw.Config.Equality.{config_eq}
use sshw.Config.File.{ConfigJson}
use sshw.Credentials.{CredentialStore, IsKeyed, KeyOf, CredentialKey-cases}
use sshw.Accounts.{Answers, Saving}
use sshw.Accounts.Handlers.{World, save_or_take_back, delete_password}
use sshw.Accounts.Kept.{IsWritten}
use sshw.Accounts.Replaced.{IsOther, save_or_take_back_lem}
use sshw.Privilege.{PrivilegeSetArgs, put_privilege}
use sshw.Privilege.Set.{
  admit_privilege, read_privilege_password, new_privilege, replaced, privilege_changed,
  store_privilege, stored_credential, drop_replaced, assign, set_privilege,
}
use sshw.Privilege.Unused.{
  IsThere, admitted-IsThere, UsesPrivilege, replaced-UsesPrivilege, replaced-unused,
  replaced-changed,
}

module _ (json : ConfigJson) (store : CredentialStore) {key_of : KeyOf}
    (keyed : IsKeyed store key_of) (purpose : CredentialPurpose) (credential user : Text) where
  -- What the store answers for one key.
  abbrev reads : World json store → Result Text
  reads w = store.get_password_for purpose credential user w.credentials

  abbrev IsOtherKey : Option (Text × Text) → Type 0
  IsOtherKey stored = IsOther json store keyed purpose credential user privilege stored

  -- The key reads as before; or it was that of the password with which the account became root
  -- before, the configuration that the command ends with is in the file, and its account does not
  -- use this password.
  abbrev pub KeptPrivilege : Text → Text → World json store → World json store → Type 0
  KeptPrivilege name login_user w end =
      (reads end ≡ reads w)
      ⊎ (IsWritten json store end
          × (old : Text) × (owner : Text) × (key_of privilege old owner
              ≡ key_of purpose credential user)
          × UsesPrivilege name login_user (old, owner) w.settings
          × ¬ UsesPrivilege name login_user (old, owner) end.settings)

  value_state :
      {T : Type 0} (step : World json store × Result (Unit {0})) (value : T)
      → (and_then step (λ v done. (done, ok value))).0 ≡ step.0
  value_state (s, err e) value = refl
  value_state (s, ok u) value = refl

  -- What deleting a replaced password does behind a save.
  dropped-KeptPrivilege :
      {T : Type 0} (name login_user : Text) (replaced_key : Option (Text × Text))
      (w : World json store) (step : World json store × Result (Unit {0})) (value : T)
      → reads step.0 ≡ reads w
      → ((old owner : Text)
          → replaced_key ≡ some (old, owner)
          → step.1 ≡ ok tt
          → IsWritten json store step.0
            × UsesPrivilege name login_user (old, owner) w.settings
            × ¬ UsesPrivilege name login_user (old, owner) step.0.settings)
      → KeptPrivilege name login_user w
          (and_then step (λ u saved.
            and_then (drop_replaced json store replaced_key saved) (λ v done. (done, ok value)))).0
  unfolding drop_replaced delete_password
  dropped-KeptPrivilege name login_user replaced_key w (s, err e) value h k = inl h
  dropped-KeptPrivilege name login_user none w (s, ok u) value h k = inl h
  dropped-KeptPrivilege name login_user (some (old, owner)) w (s, ok u) value h k =
      subst (KeptPrivilege name login_user w)
        (sym (value_state (drop_replaced json store (some (old, owner)) s) value))
        (elim (CredentialKey-cases (key_of purpose credential user) (key_of privilege old owner)) [
          | inr n ↦
              inl
                (keyed.delete_other privilege old owner purpose credential user s.credentials n ∙ h)
          | inl e ↦
              let (written, used, unused) = k old owner refl refl in
              inr (written, old, owner, sym e, used, unused)
        ])

  assign_keeps :
      (args : PrivilegeSetArgs) (saving : Saving) (login_user : Text) (found : AccountConfig)
      (new : PrivilegeConfig) (stored : Option (Text × Text)) (w : World json store)
      → IsThere args.name w.settings login_user found
      → IsOtherKey stored
      → KeptPrivilege args.name login_user w
          (assign json store args saving login_user found.privilege new stored w).0
  unfolding assign
  assign_keeps args saving login_user found new stored w there n =
      let after : SshwConfig = put_privilege args.name login_user (some new) w.settings in
      let changed : Bool = privilege_changed args.no_password w.settings after in
      let ready : World json store = record w { settings = after } in
      let (settings, kept, written) =
        save_or_take_back_lem json store keyed purpose credential user privilege stored saving
          changed ready n in
      dropped-KeptPrivilege args.name login_user (replaced found.privilege new) w
        (save_or_take_back json store privilege stored saving changed ready) _ kept
        (λ old owner q saved. (
          written saved
              (replaced-changed args w.settings login_user found new (old, owner) there q),
          replaced-UsesPrivilege args.name w.settings login_user found new old owner there q,
          subst (λ c. ¬ UsesPrivilege args.name login_user (old, owner) c) (sym settings)
              (replaced-unused args.name w.settings login_user found new old owner there q),
        ))

  -- What storing the new password does to the other entries.
  abbrev Prepared : World json store → World json store × Result (Option (Text × Text)) → Type 0
  Prepared w (ready, ok stored) =
      (ready.settings ≡ w.settings) × (reads ready ≡ reads w) × IsOtherKey stored
  Prepared w (ready, err e) = reads ready ≡ reads w

  stored_lem :
      (new name : Text) (r : Result (Unit {0})) (s : store.State) (w : World json store)
      → IsOtherKey (some (new, name))
      → store.get_password_for purpose credential user s ≡ reads w
      → Prepared w (record w { credentials = s }, map_err auth r >> ok (some (new, name)))
  stored_lem new name (ok u) s w n h = (refl, h, n)
  stored_lem new name (err e) s w n h = h

  store_privilege_lem :
      (new name : Text) (secret : Result Text) (w : World json store)
      → IsOtherKey (some (new, name))
      → Prepared w (store_privilege json store new name secret w)
  unfolding store_privilege
  store_privilege_lem new name (err e) w n = refl
  store_privilege_lem new name (ok secret) w n =
      stored_lem new name _ _ w n
        (keyed.set_other privilege new name secret purpose credential user w.credentials n)

  stored_credential_lem :
      (no_password : Bool) (new name : Text) (secret : Result Text) (w : World json store)
      → IsOtherKey (some (new, name))
      → Prepared w (stored_credential json store no_password new name secret w)
  unfolding stored_credential
  stored_credential_lem true new name secret w n = (refl, refl, tt)
  stored_credential_lem false new name secret w n = store_privilege_lem new name secret w n

  assign-Prepared :
      (args : PrivilegeSetArgs) (saving : Saving) (login_user : Text) (found : AccountConfig)
      (new : PrivilegeConfig) (w : World json store)
      (p : World json store × Result (Option (Text × Text)))
      → IsThere args.name w.settings login_user found
      → Prepared w p
      → KeptPrivilege args.name login_user w
          (and_then p (assign json store args saving login_user found.privilege new)).0
  assign-Prepared args saving login_user found new w (ready, err e) there h = inl h
  assign-Prepared args saving login_user found new w (ready, ok stored) (server, g, p) (s, h, n) =
      elim (assign_keeps args saving login_user found new stored ready
        (server, ap (λ c. get args.name c.servers) s ∙ g, p) n) [
          | inl kept ↦ inl (kept ∙ h)
          | inr (written, old, owner, key, used, unused) ↦ inr (
            written,
            old,
            owner,
            key,
            subst (UsesPrivilege args.name login_user (old, owner)) s used,
            unused,
          )
        ]

  -- With a store whose calls touch the entry under their own key only, whatever the key is made of,
  -- and whatever setting a privilege ends with: every password under another key than the new ones
  -- reads as before; or it was the one with which an account of the server became root before, the
  -- configuration that the command ends with is in the file, and this account does not use it there.
  pub set_privilege_keeps :
      (b64 : Base64) (namespace : CredentialNamespace) (nanos_pid_counter : Text)
      (args : PrivilegeSetArgs) (answers : Answers) (saving : Saving) (w : World json store)
      → ((login_user : Text)
          → ¬ (
              key_of purpose credential user
              ≡ key_of privilege
                  (new_account_credential_key b64 namespace privilege args.name login_user
                    nanos_pid_counter)
                  args.user))
      → (login_user : Text) × KeptPrivilege args.name login_user w
          (set_privilege json store b64 namespace nanos_pid_counter args answers saving w).0
  unfolding set_privilege
  set_privilege_keeps b64 namespace nanos_pid_counter args answers saving w n =
      elim (Result-cases (admit_privilege args answers w.settings)) [
        | inr (e, q) ↦ ([], inl (ground arith))
        | inl ((login_user, found), q) ↦
            let new : Text =
              new_account_credential_key b64 namespace privilege args.name login_user
                nanos_pid_counter in
            let secret = read_privilege_password args.password_stdin answers in
            (
              login_user,
              ground (
                arith,
                assign-Prepared args saving login_user found (new_privilege args new) w
                    (stored_credential json store args.no_password new args.user secret w)
                    (admitted-IsThere args answers w.settings login_user found q)
                    (stored_credential_lem args.no_password new args.user secret w (n login_user)),
              ),
            )
      ]
