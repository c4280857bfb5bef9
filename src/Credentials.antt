-- ===== src/Credentials.antt =====
-- Credential stores (src/credentials/mod.rs), and the one that lives in memory only
-- (src/credentials/session_store.rs). Reading the environment and zeroing memory are left out.
pub mod Session
use sshw.Base.{◌&&◌, ◌⊎◌, inl, inr, arith, same, text_eq, Bool-cases, Bool, true, Text, ◌≡◌, ap₂}
use sshw.Errors.{Result}
use sshw.Home.{CredentialPurpose, login, privilege}

-- The trait `CredentialStore`, on the state of a back end.
pub record CredentialStore : Type 1 where
  pub State : Type 0
  pub set_password : Text → Text → Text → State → State × Result (Unit {0})
  pub get_password : Text → Text → State → Result Text
  pub delete_password : Text → Text → State → State × Result (Unit {0})
  pub set_password_for : CredentialPurpose → Text → Text → Text → State → State × Result (Unit {0})
  pub get_password_for : CredentialPurpose → Text → Text → State → Result Text
  pub delete_password_for : CredentialPurpose → Text → Text → State → State × Result (Unit {0})
  pub is_persistent : Bool

-- A back end that has the methods of the trait without a default only, as the keyring has.
pub record RequiredMethods : Type 1 where
  pub State : Type 0
  pub set_password : Text → Text → Text → State → State × Result (Unit {0})
  pub get_password : Text → Text → State → Result Text
  pub delete_password : Text → Text → State → State × Result (Unit {0})

-- The default methods of the trait ignore the purpose.
abbrev pub with_default_methods : RequiredMethods → CredentialStore
with_default_methods methods = record {
  State = methods.State;
  set_password = methods.set_password;
  get_password = methods.get_password;
  delete_password = methods.delete_password;
  set_password_for = λ purpose. methods.set_password;
  get_password_for = λ purpose. methods.get_password;
  delete_password_for = λ purpose. methods.delete_password;
  is_persistent = true;
}

-- The purpose, the credential and the user that a call names.
abbrev pub CredentialKey : Type 0
CredentialKey = CredentialPurpose × Text × Text

-- Under which key a back end keeps what a call names.
abbrev pub KeyOf : Type 0
KeyOf = CredentialPurpose → Text → Text → CredentialKey

-- Entries of one credential and user for two purposes are two entries.
abbrev pub purpose_key : KeyOf
purpose_key purpose credential user = (purpose, credential, user)

-- They are one entry, as the default methods have it.
abbrev pub shared_key : KeyOf
shared_key purpose credential user = (login, credential, user)

abbrev pub entry_key : KeyOf → CredentialKey → CredentialKey
entry_key key_of (purpose, credential, user) = key_of purpose credential user

-- A call touches the entry under its own key only.
pub record IsKeyed (store : CredentialStore) (key_of : KeyOf) : Type 0 where
  pub set_other :
      (purpose : CredentialPurpose) (credential user password : Text) (other : CredentialPurpose)
      (other_credential other_user : Text) (state : store.State)
      → ¬ (key_of other other_credential other_user ≡ key_of purpose credential user)
      → store.get_password_for other other_credential other_user
          (store.set_password_for purpose credential user password state).0
        ≡ store.get_password_for other other_credential other_user state
  pub delete_other :
      (purpose : CredentialPurpose) (credential user : Text) (other : CredentialPurpose)
      (other_credential other_user : Text) (state : store.State)
      → ¬ (key_of other other_credential other_user ≡ key_of purpose credential user)
      → store.get_password_for other other_credential other_user
          (store.delete_password_for purpose credential user state).0
        ≡ store.get_password_for other other_credential other_user state

-- A call of the required methods touches the entry of its credential and user only.
pub record IsApart (methods : RequiredMethods) : Type 0 where
  pub set_other :
      (credential user password other_credential other_user : Text) (state : methods.State)
      → ¬ ((other_credential ≡ credential) × (other_user ≡ user))
      → methods.get_password other_credential other_user
          (methods.set_password credential user password state).0
        ≡ methods.get_password other_credential other_user state
  pub delete_other :
      (credential user other_credential other_user : Text) (state : methods.State)
      → ¬ ((other_credential ≡ credential) × (other_user ≡ user))
      → methods.get_password other_credential other_user
          (methods.delete_password credential user state).0
        ≡ methods.get_password other_credential other_user state

-- With the default methods such a back end is keyed, the purpose aside.
pub with_default_methods-IsKeyed :
    (methods : RequiredMethods)
    → IsApart methods
    → IsKeyed (with_default_methods methods) shared_key
with_default_methods-IsKeyed methods apart = record {
  set_other = λ purpose credential user password other other_credential other_user state n.
      apart.set_other credential user password other_credential other_user state
        (λ e. n (ap₂ (shared_key purpose) e.0 e.1));
  delete_other = λ purpose credential user other other_credential other_user state n.
      apart.delete_other credential user other_credential other_user state
        (λ e. n (ap₂ (shared_key purpose) e.0 e.1));
}

-- Whether two keys are the same is decided.
pub CredentialKey-cases : (a b : CredentialKey) → (a ≡ b) ⊎ ¬ (a ≡ b)
CredentialKey-cases (login, c, u) (privilege, d, v) = inr (λ h. absurd (ground arith))
CredentialKey-cases (privilege, c, u) (login, d, v) = inr (λ h. absurd (ground arith))
CredentialKey-cases (login, c, u) (login, d, v) = elim (Bool-cases (same c d && same u v)) [
  | inl e ↦ inl (ground arith)
  | inr e ↦ inr (λ h. absurd (ground arith))
]
CredentialKey-cases (privilege, c, u) (privilege, d, v) = elim (Bool-cases (same c d && same u v)) [
  | inl e ↦ inl (ground arith)
  | inr e ↦ inr (λ h. absurd (ground arith))
]
