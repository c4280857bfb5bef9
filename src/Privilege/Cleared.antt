-- ===== src/Privilege/Cleared.antt =====
-- Clearing a privilege loses no password that is in use.
use sshw.Base.{Text, none, ◌≡◌, ◌⊎◌, inl, inr, arith, Option-cases}
use sshw.Errors.{Result-cases}
use sshw.Config.{PrivilegeConfig}
use sshw.Config.File.{ConfigJson}
use sshw.Credentials.{CredentialStore}
use sshw.Accounts.{Answers, Saving}
use sshw.Accounts.Handlers.{World, save, delete_password}
use sshw.Accounts.Kept.{IsWritten, save_lem}
use sshw.Privilege.{
  PrivilegeClearArgs, find_account, put_privilege, drop_cleared, clear_some, clear_found,
  clear_privilege,
}

module _ (json : ConfigJson) (store : CredentialStore) where
  drop_cleared-IsWritten :
      (old : PrivilegeConfig) (w : World json store)
      → IsWritten json store w
      → IsWritten json store (drop_cleared json store old w).0
  unfolding drop_cleared delete_password
  drop_cleared-IsWritten old w h = ground arith

  clear_some_keeps :
      (args : PrivilegeClearArgs) (answers : Answers) (saving : Saving) (user : Text)
      (old : PrivilegeConfig) (w : World json store)
      → ((clear_some json store args answers saving user old w).0.credentials ≡ w.credentials)
        ⊎ IsWritten json store (clear_some json store args answers saving user old w).0
  unfolding clear_some
  clear_some_keeps args answers saving user old w =
      let after : World json store = record w {
        settings = put_privilege args.name user none w.settings;
      } in
      ground (
        arith,
        save_lem json store saving after,
        drop_cleared-IsWritten old (save json store saving after).0,
      )

  -- Clearing a privilege deletes its password only once the file holds the configuration without
  -- it: whatever the outcome, the store is as it was or the new configuration is in the file.
  pub clear_privilege_keeps :
      (args : PrivilegeClearArgs) (answers : Answers) (saving : Saving) (w : World json store)
      → ((clear_privilege json store args answers saving w).0.credentials ≡ w.credentials)
        ⊎ IsWritten json store (clear_privilege json store args answers saving w).0
  unfolding clear_privilege clear_found
  clear_privilege_keeps args answers saving w =
      elim (Result-cases (find_account args.name args.account w.settings)) [
        | inr (e, q) ↦ inl (ground arith)
        | inl ((user, found), q) ↦ elim (Option-cases found.privilege) [
          | inl e ↦ inl (ground arith)
          | inr (old, e) ↦ ground (arith, clear_some_keeps args answers saving user old w)
        ]
      ]
