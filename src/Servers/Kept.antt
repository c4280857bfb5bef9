-- ===== src/Servers/Kept.antt =====
-- Passwords are not lost when the server commands fail, and those that a new server keeps are not
-- deleted (src/cli/server.rs).
use sshw.Base.{Text, ◌≡◌, arith, text_eq, inl, inr, ◌⊎◌, Member, get}
use sshw.Errors.{Result, Result-cases}
use sshw.Home.{CredentialPurpose}
use sshw.Config.File.{ConfigJson}
use sshw.Access.{get_server}
use sshw.Credentials.{CredentialStore, IsKeyed, KeyOf, CredentialKey, entry_key}
use sshw.Accounts.{Answers, Saving}
use sshw.Accounts.Handlers.{World, save}
use sshw.Accounts.Kept.{IsWritten, save_lem}
use sshw.Servers.{RemoveArgs, drop_server, stored_credentials, stored_of}
use sshw.Servers.Handlers.{remove_server}
use sshw.Servers.Stale.{clean_up_files}

module _ (json : ConfigJson) (store : CredentialStore) where
  -- Removing a server deletes passwords only once the file holds the configuration without it.
  pub remove_server_keeps :
      (args : RemoveArgs) (answers : Answers) (saving : Saving) (w : World json store)
      → ((remove_server json store args answers saving w).0.credentials ≡ w.credentials)
        ⊎ IsWritten json store (remove_server json store args answers saving w).0
  unfolding remove_server
  remove_server_keeps args answers saving w =
      elim (Result-cases (get_server w.settings args.name)) [
        | inr (e, q) ↦ inl (ground arith)
        | inl (server, q) ↦
            let after : World json store = record w {
              settings = drop_server args.name w.settings;
            } in
            ground (
              arith,
              save_lem json store saving after,
              clean_up_files json store _ (stored_credentials server)
                  (save json store saving after).0,
            )
      ]

module _ (json : ConfigJson) (store : CredentialStore) {key_of : KeyOf}
    (keyed : IsKeyed store key_of) (purpose : CredentialPurpose) (credential user : Text) where
  abbrev reads_key : World json store → Result Text
  reads_key w = store.get_password_for purpose credential user w.credentials

  -- The password reads as before; or it was, in this back end, that of a credential of the previous
  -- server, the configuration that the command ends with is in the file, and its server does not use
  -- this credential.
  abbrev pub Safe : Text → World json store → World json store → Type 0
  Safe name w end =
      (reads_key end ≡ reads_key w)
      ⊎ (IsWritten json store end
          × (entry : CredentialKey) × (entry_key key_of entry ≡ key_of purpose credential user)
          × Member entry (stored_of (get name w.settings.servers))
          × (Member entry (stored_of (get name end.settings.servers)) → ⊥))
