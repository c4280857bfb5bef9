-- ===== src/Accounts/Replaced.antt =====
-- Adding or updating an account loses no password that is in use.
use sshw.Base.{
  subst, Bool, true, false, Text, Option, none, some, ◌≡◌, ◌⊎◌, inl, inr, refl, sym, ap, ◌∙◌, arith,
  text_eq, get,
}
use sshw.Errors.{auth, Result, ok, err, map_err, and_then, ◌>>◌, Result-cases}
use sshw.Home.{CredentialPurpose, login, CredentialNamespace}
use sshw.Home.Keys.{Base64, new_account_credential_key}
use sshw.Config.{SshwConfig, AccountConfig, AuthConfig, password}
use sshw.Config.Equality.{config_eq}
use sshw.Config.File.{ConfigJson}
use sshw.Credentials.{CredentialStore, IsKeyed, KeyOf, CredentialKey-cases}
use sshw.Accounts.{
  AccountAddArgs, Answers, Saving, AuthArg, password_arg, agent_arg, superseded, read_password,
  admit, put_account, account_changed, previous_auth, previous_privilege,
}
use sshw.Accounts.Handlers.{
  World, save, delete_password, save_or_take_back, new_auth, store_new, drop_superseded, register,
  add_account,
}
use sshw.Accounts.Kept.{IsWritten, save_lem}
use sshw.Accounts.Superseded.{
  WasThere, admitted, Uses, superseded-Uses, superseded-unused, superseded-changed,
}

module _ (json : ConfigJson) (store : CredentialStore) {key_of : KeyOf}
    (keyed : IsKeyed store key_of) (purpose : CredentialPurpose) (credential user : Text) where
  -- What the store answers for one key.
  abbrev pub reads : World json store → Result Text
  reads w = store.get_password_for purpose credential user w.credentials

  -- The credential that was stored, if any, has another key.
  abbrev pub IsOther : CredentialPurpose → Option (Text × Text) → Type 0
  IsOther kind none = Unit
  IsOther kind (some (new, name)) = ¬ (key_of purpose credential user ≡ key_of kind new name)

  abbrev pub Committed : Bool → World json store → World json store × Result (Unit {0}) → Type 0
  Committed changed w (saved, r) =
      (saved.settings ≡ w.settings)
      × (reads saved ≡ reads w)
      × (r ≡ ok tt → changed ≡ true → IsWritten json store saved)

  pub save_or_take_back_lem :
      (kind : CredentialPurpose) (stored : Option (Text × Text)) (saving : Saving) (changed : Bool)
      (w : World json store)
      → IsOther kind stored
      → Committed changed w (save_or_take_back json store kind stored saving changed w)
  unfolding save_or_take_back delete_password
  save_or_take_back_lem kind stored saving false w n = ground arith
  save_or_take_back_lem kind none saving true w n = ground (arith, save_lem json store saving w)
  save_or_take_back_lem kind (some (new, name)) saving true w n = ground (
    arith,
    save_lem json store saving w,
    keyed.delete_other kind new name purpose credential user
        (save json store saving w).0.credentials n,
  )

  -- The key reads as before; or it was that of the password that the account used before, the
  -- configuration that the command ends with is in the file, and its account does not use it.
  abbrev pub Kept : Text → Text → World json store → World json store → Type 0
  Kept name login_user w end =
      (reads end ≡ reads w)
      ⊎ (IsWritten json store end
          × (old : Text) × (key_of login old login_user ≡ key_of purpose credential user)
          × Uses name login_user old w.settings
          × ¬ Uses name login_user old end.settings)

  value_state :
      {T : Type 0} (step : World json store × Result (Unit {0})) (value : T)
      → (and_then step (λ v done. (done, ok value))).0 ≡ step.0
  value_state (s, err e) value = refl
  value_state (s, ok u) value = refl

  -- What deleting a superseded password does behind a save.
  dropped-Kept :
      {T : Type 0} (name login_user : Text) (superseded_key : Option Text) (w : World json store)
      (step : World json store × Result (Unit {0})) (value : T)
      → reads step.0 ≡ reads w
      → ((old : Text)
          → superseded_key ≡ some old
          → step.1 ≡ ok tt
          → IsWritten json store step.0
            × Uses name login_user old w.settings
            × ¬ Uses name login_user old step.0.settings)
      → Kept name login_user w
          (and_then step (λ u saved.
            and_then
              (drop_superseded json store superseded_key login_user saved)
              (λ v done. (done, ok value)))).0
  unfolding drop_superseded delete_password
  dropped-Kept name login_user superseded_key w (s, err e) value h k = inl h
  dropped-Kept name login_user none w (s, ok u) value h k = inl h
  dropped-Kept name login_user (some old) w (s, ok u) value h k =
      let end : World json store = (drop_superseded json store (some old) login_user s).0 in
      subst (Kept name login_user w)
        (sym (value_state (drop_superseded json store (some old) login_user s) value))
        (elim (CredentialKey-cases (key_of purpose credential user) (key_of login old login_user)) [
          | inr n ↦
              inl (
                keyed.delete_other login old login_user purpose credential user s.credentials n ∙ h)
          | inl e ↦
              let (written, used, unused) = k old refl refl in
              inr (written, old, sym e, used, unused)
        ])

  register_keeps :
      (args : AccountAddArgs) (saving : Saving) (previous : Option AccountConfig)
      (login_auth : AuthConfig) (stored : Option (Text × Text)) (w : World json store)
      → WasThere args w.settings previous
      → IsOther login stored
      → Kept args.name args.user w
          (register json store args saving previous (login_auth, stored) w).0
  unfolding register
  register_keeps args saving previous login_auth stored w there n =
      let new : AccountConfig = record {
        auth = login_auth;
        privilege = previous_privilege previous;
      } in
      let after : SshwConfig = put_account args.name args.user new w.settings in
      let changed : Bool = account_changed args.auth w.settings after in
      let ready : World json store = record w { settings = after } in
      let (settings, kept, written) = save_or_take_back_lem login stored saving changed ready n in
      dropped-Kept args.name args.user (superseded (previous_auth previous) login_auth) w
        (save_or_take_back json store login stored saving changed ready) _ kept
        (λ old q saved. (
          written saved (superseded-changed args w.settings previous login_auth old there q),
          superseded-Uses args w.settings previous login_auth old there q,
          subst (λ c. ¬ Uses args.name args.user old c) (sym settings)
              (superseded-unused args w.settings previous login_auth old there q),
        ))

  -- What storing the new password does to the other entries.
  abbrev pub Prepared :
      World json store → World json store × Result (AuthConfig × Option (Text × Text)) → Type 0
  Prepared w (ready, ok (login_auth, stored)) =
      (ready.settings ≡ w.settings) × (reads ready ≡ reads w) × IsOther login stored
  Prepared w (ready, err e) = reads ready ≡ reads w

  stored_lem :
      (new name : Text) (r : Result (Unit {0})) (s : store.State) (w : World json store)
      → ¬ (key_of purpose credential user ≡ key_of login new name)
      → store.get_password_for purpose credential user s ≡ reads w
      → Prepared w
          (record w { credentials = s }, map_err auth r >> ok (password new, some (new, name)))
  stored_lem new name (ok u) s w n h = (refl, h, n)
  stored_lem new name (err e) s w n h = h

  store_new_lem :
      (new name : Text) (secret : Result Text) (w : World json store)
      → ¬ (key_of purpose credential user ≡ key_of login new name)
      → Prepared w (store_new json store new name secret w)
  unfolding store_new
  store_new_lem new name (err e) w n = refl
  store_new_lem new name (ok secret) w n =
      stored_lem new name _ _ w n
        (keyed.set_other login new name secret purpose credential user w.credentials n)

  pub new_auth_lem :
      (arg : AuthArg) (password_stdin : Bool) (answers : Answers) (new name : Text)
      (w : World json store)
      → ¬ (key_of purpose credential user ≡ key_of login new name)
      → Prepared w (new_auth json store arg password_stdin answers new name w)
  unfolding new_auth
  new_auth_lem agent_arg password_stdin answers new name w n = (refl, refl, tt)
  new_auth_lem password_arg password_stdin answers new name w n =
      store_new_lem new name (read_password password_stdin answers) w n

  register-Prepared :
      (args : AccountAddArgs) (saving : Saving) (previous : Option AccountConfig)
      (w : World json store) (p : World json store × Result (AuthConfig × Option (Text × Text)))
      → WasThere args w.settings previous
      → Prepared w p
      → Kept args.name args.user w (and_then p (register json store args saving previous)).0
  register-Prepared args saving previous w (ready, err e) there h = inl h
  register-Prepared args saving previous w (ready, ok (login_auth, stored)) (server, g, p)
        (s, h, n) =
      elim (register_keeps args saving previous login_auth stored ready
        (server, ap (λ c. get args.name c.servers) s ∙ g, p) n) [
          | inl kept ↦ inl (kept ∙ h)
          | inr (written, old, key, used, unused) ↦
              inr (written, old, key, subst (Uses args.name args.user old) s used, unused)
        ]

  -- With a store whose calls touch the entry under their own key only, whatever the key is made of,
  -- and whatever adding or updating an account ends with: every password under another key than the
  -- new one reads as before; or it was the one that the account used before, the configuration that
  -- the command ends with is in the file, and its account does not use it.
  pub add_account_keeps :
      (b64 : Base64) (namespace : CredentialNamespace) (nanos_pid_counter : Text)
      (args : AccountAddArgs) (answers : Answers) (saving : Saving) (w : World json store)
      → ¬ (
          key_of purpose credential user
          ≡ key_of login
              (new_account_credential_key b64 namespace login args.name args.user nanos_pid_counter)
              args.user)
      → Kept args.name args.user w
          (add_account json store b64 namespace nanos_pid_counter args answers saving w).0
  unfolding add_account
  add_account_keeps b64 namespace nanos_pid_counter args answers saving w n =
      let new : Text =
        new_account_credential_key b64 namespace login args.name args.user nanos_pid_counter in
      elim (Result-cases (admit args answers w.settings)) [
        | inr (e, q) ↦ inl (ground arith)
        | inl (previous, q) ↦ ground (
          arith,
          register-Prepared args saving previous w
              (new_auth json store args.auth args.password_stdin answers new args.user w)
              (admitted args answers w.settings previous q)
              (new_auth_lem args.auth args.password_stdin answers new args.user w n),
        )
      ]
