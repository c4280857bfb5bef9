-- ===== src/Servers/Stale.antt =====
-- The credentials that a server command deletes (src/cli/server.rs, `stored_credentials` and the
-- loops over it).
use sshw.Base.{
  Bool, true, false, not, Text, List, [], ◌∷◌, Option, ◌≡◌, refl, sym, ap, ◌∙◌, arith, text_eq,
  Bool-cases, inl, inr, ◌⊎◌, any, filter, Member, any-eq-true, any_of_Member, if◌then◌else◌,
}
use sshw.Errors.{Result, ok}
use sshw.Home.{CredentialPurpose, login, privilege}
use sshw.Config.{ServerConfig}
use sshw.Config.File.{ConfigJson}
use sshw.Credentials.{CredentialStore, IsKeyed, KeyOf, CredentialKey, entry_key}
use sshw.Accounts.Handlers.{World, delete_password}
use sshw.Servers.{purpose_eq, same_key, stored_credentials, stored_of, stale_credentials}
use sshw.Servers.Handlers.{delete_all, clean_up}

same_key_refl : (key : CredentialKey) → same_key key key ≡ true
unfolding same_key purpose_eq
same_key_refl (login, credential, user) = ground arith
same_key_refl (privilege, credential, user) = ground arith

same_key-eq-true : (key other : CredentialKey) → same_key key other ≡ true → key ≡ other
unfolding same_key purpose_eq
same_key-eq-true (login, credential, user) (login, c, u) h = ground arith
same_key-eq-true (privilege, credential, user) (privilege, c, u) h = ground arith
same_key-eq-true (login, credential, user) (privilege, c, u) h = absurd (ground arith)
same_key-eq-true (privilege, credential, user) (login, c, u) h = absurd (ground arith)

-- An entry of a list has a key of a back end.
abbrev pub Shared : KeyOf → CredentialKey → List CredentialKey → Type 0
Shared key_of key entries =
    (entry : CredentialKey) × Member entry entries × (entry_key key_of entry ≡ key)

-- Whether a list has an entry with a key is decided.
pub Shared-cases :
    (key_of : KeyOf) (key : CredentialKey) (entries : List CredentialKey)
    → Shared key_of key entries
      ⊎ ((entry : CredentialKey) → Member entry entries → ¬ (entry_key key_of entry ≡ key))
Shared-cases key_of key entries =
    elim (Bool-cases (any (λ entry. same_key (entry_key key_of entry) key) entries)) [
      | inl e ↦
          let (entry, m, q) =
            any-eq-true (λ entry. same_key (entry_key key_of entry) key) entries e in
          inl (entry, m, same_key-eq-true (entry_key key_of entry) key q)
      | inr e ↦ inr (λ entry m q.
          let found =
            any_of_Member (λ entry. same_key (entry_key key_of entry) key) entry entries m
              (ap (λ other. same_key other key) q ∙ same_key_refl key) in
          absurd (ground arith))
    ]

-- One entry of a filtered list.
kept-Member :
    (kept : Bool) (p : CredentialKey → Bool) (key entry : CredentialKey)
    (entries rest : List CredentialKey)
    → p entry ≡ kept
    → (Member key rest → (p key ≡ true) × Member key entries)
    → Member key (if kept then entry ∷ rest else rest)
    → (p key ≡ true) × Member key (entry ∷ entries)
kept-Member true p key entry entries rest q h (inl e) = (ap p (sym e) ∙ q, inl e)
kept-Member true p key entry entries rest q h (inr m) = let (t, k) = h m in (t, inr k)
kept-Member false p key entry entries rest q h m = let (t, k) = h m in (t, inr k)

Member-filter :
    (p : CredentialKey → Bool) (key : CredentialKey) (entries : List CredentialKey)
    → Member key (filter p entries)
    → (p key ≡ true) × Member key entries
unfolding filter
Member-filter p key [] m = absurd m
Member-filter p key (entry ∷ entries) m =
    kept-Member (p entry) p key entry entries (filter p entries) refl (Member-filter p key entries)
      m

-- A stale credential is one of the previous server, and none of the new one.
pub stale-Member :
    (previous : Option ServerConfig) (server : ServerConfig) (key : CredentialKey)
    → Member key (stale_credentials previous server)
    → Member key (stored_of previous) × (Member key (stored_credentials server) → ⊥)
unfolding stale_credentials
stale-Member previous server key m =
    let (p, k) =
      Member-filter (λ entry. not (any (same_key entry) (stored_credentials server))) key
        (stored_of previous) m in
    (
      k,
      λ kept. absurd (
          let found =
            any_of_Member (same_key key) key (stored_credentials server) kept (same_key_refl key) in
          ground arith),
    )

module _ (json : ConfigJson) (store : CredentialStore) where
  -- Deleting passwords changes neither the file nor the configuration.
  delete_all_files :
      (entries : List CredentialKey) (first : Result (Unit {0})) (w : World json store)
      → ((delete_all json store entries first w).0.disk ≡ w.disk)
        × ((delete_all json store entries first w).0.settings ≡ w.settings)
  unfolding delete_all delete_password
  delete_all_files [] first w = (refl, refl)
  delete_all_files ((purpose, credential, user) ∷ entries) first w = delete_all_files entries _ _

  pub clean_up_files :
      (action : Text) (entries : List CredentialKey) (w : World json store)
      → ((clean_up json store action entries w).0.disk ≡ w.disk)
        × ((clean_up json store action entries w).0.settings ≡ w.settings)
  unfolding clean_up
  clean_up_files action entries w = delete_all_files entries (ok tt) w

module _ (json : ConfigJson) (store : CredentialStore) {key_of : KeyOf}
    (keyed : IsKeyed store key_of) (purpose : CredentialPurpose) (credential user : Text) where
  abbrev pub reads_of : World json store → Result Text
  reads_of w = store.get_password_for purpose credential user w.credentials

  -- It touches no entry but those of the credentials that it is given.
  delete_all_reads :
      (entries : List CredentialKey) (first : Result (Unit {0})) (w : World json store)
      → ((entry : CredentialKey)
          → Member entry entries
          → ¬ (entry_key key_of entry ≡ key_of purpose credential user))
      → reads_of (delete_all json store entries first w).0 ≡ reads_of w
  unfolding delete_all delete_password
  delete_all_reads [] first w n = refl
  delete_all_reads ((other, other_credential, other_user) ∷ entries) first w n =
      delete_all_reads entries _ _ (λ entry m. n entry (inr m))
      ∙ keyed.delete_other other other_credential other_user purpose credential user w.credentials
          (λ e. n (other, other_credential, other_user) (inl refl) (sym e))

  pub clean_up_reads :
      (action : Text) (entries : List CredentialKey) (w : World json store)
      → ((entry : CredentialKey)
          → Member entry entries
          → ¬ (entry_key key_of entry ≡ key_of purpose credential user))
      → reads_of (clean_up json store action entries w).0 ≡ reads_of w
  unfolding clean_up
  clean_up_reads action entries w n = delete_all_reads entries (ok tt) w n
