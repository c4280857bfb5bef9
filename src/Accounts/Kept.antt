-- ===== src/Accounts/Kept.antt =====
-- Passwords are not lost when the account commands fail.
use sshw.Base.{
  none, subst, sym, get, remove, get-insert, get-remove, Text, some, ◌≡◌, ◌⊎◌, inl, inr, refl,
  arith, text_eq, any,
}
use sshw.Errors.{
  and_then, ErrorKind, config, Error, with_error_kind, write_was_published, Result, ok, err,
  map_err, Result-cases,
}
use sshw.Storage.{Disk}
use sshw.Storage.Publish.{Outcome}
use sshw.Config.{AccountConfig, ServerConfig, SshwConfig}
use sshw.Config.File.{ConfigJson}
use sshw.Config.File.Revision.{save_config_if_unchanged-Outcome}
use sshw.Access.{get_server}
use sshw.Credentials.{CredentialStore}
use sshw.Accounts.{AccountRemoveArgs, Answers, Saving, admit_removal, drop_account, modify_server}
use sshw.Accounts.Handlers.{World, save, delete_password, remove_account, delete_credentials}

published-with_error_kind :
    (kind : ErrorKind) (e : Error)
    → write_was_published (with_error_kind kind e) ≡ write_was_published e
unfolding write_was_published with_error_kind any
published-with_error_kind kind e = ground arith

-- A configuration lacks an account that another one may have, and is the other one but for it.
abbrev pub Lacks : Text → Text → SshwConfig → SshwConfig → Type 0
Lacks name user before after =
    (old : ServerConfig) × (new : ServerConfig) × (get name before.servers ≡ some old)
    × (get name after.servers ≡ some new)
    × (get user new.accounts ≡ none)
    × ((other : Text) → ¬ (user ≡ other) → get other new.accounts ≡ get other old.accounts)
    × ((other : Text) → ¬ (name ≡ other) → get other after.servers ≡ get other before.servers)

drop_account-Lacks :
    (name user : Text) (before : SshwConfig)
    → (old : ServerConfig) × (get name before.servers ≡ some old)
    → Lacks name user before (drop_account name user before)
unfolding drop_account modify_server
drop_account-Lacks name user before (old, q) =
    let new : ServerConfig = record old { accounts = remove user old.accounts } in
    (
      old,
      new,
      q,
      ground (arith, get-insert name name new before.servers),
      ground (arith, get-remove user user old.accounts),
      λ other n. ground (arith, get-remove user other old.accounts),
      λ other n. ground (arith, get-insert name other new before.servers),
    )

module _ (json : ConfigJson) (store : CredentialStore) where
  -- What a save in the world does.
  abbrev pub Saved : World json store → World json store × Result (Unit {0}) → Type 0
  Saved w (saved, r) =
      (saved.credentials ≡ w.credentials)
      × (saved.settings ≡ w.settings)
      × Outcome (json.print_config w.settings) w.disk (r, saved.disk)

  of_Outcome :
      (w : World json store) (r : Result (Unit {0})) (disk : Disk)
      → Outcome (json.print_config w.settings) w.disk (r, disk)
      → Saved w (record w { disk = disk }, map_err config r)
  of_Outcome w (ok u) disk h = (refl, refl, h)
  of_Outcome w (err e) disk h = ground (arith, published-with_error_kind config e)

  pub save_lem : (saving : Saving) (w : World json store) → Saved w (save json store saving w)
  unfolding save
  save_lem saving w =
      of_Outcome w _ _
        (save_config_if_unchanged-Outcome json saving.readable saving.fails w.settings
          saving.revision w.disk).0

  -- The file holds the configuration that the command ends with.
  abbrev pub IsWritten : World json store → Type 0
  IsWritten w = w.disk.file ≡ some (json.print_config w.settings)

  IsWritten-of :
      (w : World json store) (step : World json store × Result (Unit {0}))
      → Saved w step
      → step.1 ≡ ok tt
      → IsWritten step.0
  IsWritten-of w (saved, ok u) (c, s, o) h = ground (arith, o.0)
  IsWritten-of w (saved, err e) h q = absurd (ground arith)

  settings-delete_credentials :
      (removed : AccountConfig) (user : Text) (w : World json store)
      → IsWritten w
      → IsWritten (delete_credentials json store removed user w).0
  unfolding delete_credentials delete_password
  settings-delete_credentials removed user w h = ground arith

  after-delete_credentials :
      (removed : AccountConfig) (user : Text) (w : World json store)
      → (delete_credentials json store removed user w).0.settings ≡ w.settings
  unfolding delete_credentials delete_password
  after-delete_credentials removed user w = ground arith

  admitted_removal :
      (args : AccountRemoveArgs) (answers : Answers) (settings : SshwConfig)
      (removed : AccountConfig)
      → admit_removal args answers settings ≡ ok removed
      → (old : ServerConfig) × (get args.name settings.servers ≡ some old)
  unfolding admit_removal get_server
  admitted_removal args answers settings removed h =
      elim (Result-cases (get_server settings args.name)) [
        | inr (e, q) ↦ absurd (ground arith)
        | inl (server, q) ↦ (server, ground arith)
      ]

  -- What the deletions behind a save do.
  deleted_keeps :
      (name user : Text) (removed : AccountConfig) (w : World json store)
      (step : World json store × Result (Unit {0}))
      → step.0.credentials ≡ w.credentials
      → (step.1 ≡ ok tt → IsWritten step.0)
      → Lacks name user w.settings step.0.settings
      → ((and_then step (λ u saved. delete_credentials json store removed user saved)).0.credentials
          ≡ w.credentials)
        ⊎ (IsWritten (and_then step (λ u saved. delete_credentials json store removed user saved)).0
            × Lacks name user w.settings
                (and_then step
                  (λ u saved. delete_credentials json store removed user saved)).0.settings)
  deleted_keeps name user removed w (saved, err e) c written lacks = inl c
  deleted_keeps name user removed w (saved, ok u) c written lacks = inr (
    settings-delete_credentials removed user saved (written refl),
    subst (Lacks name user w.settings) (sym (after-delete_credentials removed user saved)) lacks,
  )

  -- Removing an account deletes passwords only once the file holds the configuration without it:
  -- whatever the outcome, the store is as it was, or the configuration that the command ends with is
  -- in the file, lacks the account, and has every other server and account that was there.
  pub remove_account_keeps :
      (args : AccountRemoveArgs) (answers : Answers) (saving : Saving) (w : World json store)
      → ((remove_account json store args answers saving w).0.credentials ≡ w.credentials)
        ⊎ (IsWritten (remove_account json store args answers saving w).0
            × Lacks args.name args.user w.settings
                (remove_account json store args answers saving w).0.settings)
  unfolding remove_account
  remove_account_keeps args answers saving w =
      elim (Result-cases (admit_removal args answers w.settings)) [
        | inr (e, q) ↦ inl (ground arith)
        | inl (removed, q) ↦
            let after : World json store = record w {
              settings = drop_account args.name args.user w.settings;
            } in
            let lacks : Lacks args.name args.user w.settings after.settings =
              drop_account-Lacks args.name args.user w.settings
                (admitted_removal args answers w.settings removed q) in
            let (credentials, settings, outcome) = save_lem saving after in
            let step : World json store × Result (Unit {0}) = save json store saving after in
            let same_step : remove_account json store args answers saving w
                ≡ and_then step (λ u saved. delete_credentials json store removed args.user saved) =
              ground arith in
            subst
              (λ end.
                (end.0.credentials ≡ w.credentials)
                ⊎ (IsWritten end.0 × Lacks args.name args.user w.settings end.0.settings))
              (sym same_step)
              (deleted_keeps args.name args.user removed w step credentials
                (λ e. IsWritten-of after step (save_lem saving after) e)
                (subst (Lacks args.name args.user w.settings) (sym settings) lacks))
      ]
