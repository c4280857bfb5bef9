-- ===== src/Credentials/Session.antt =====
-- `SessionOnlyStore` (src/credentials/session_store.rs).
pub mod Keyed
use Prim.Native.Nat.{ℕ}
use sshw.Base.{
  Bool, true, false, ◌&&◌, Text, codes, List, [], ◌∷◌, ◌++◌, Option, none, some, if◌then◌else◌,
  same, text_eq,
}
use sshw.Errors.{
  ErrorKind, auth, Message, says, Layer, context, message, Error, classified_error, Result, ok, err,
}
use sshw.Home.{CredentialPurpose, login, privilege}
use sshw.Credentials.{CredentialStore}

-- An entry of the hash map.
pub record Entry : Type 0 where
  pub purpose : CredentialPurpose
  pub credential : Text
  pub user : Text
  pub password : Text

pub record SessionOnlyStore : Type 0 where
  pub session_password : Option Text
  pub privilege_password : Option Text
  pub values : List Entry

-- `purpose_tag`.
unfoldable pub same_purpose : CredentialPurpose → CredentialPurpose → Bool
same_purpose login login = true
same_purpose privilege privilege = true
same_purpose _ _ = false

unfoldable pub is_entry : CredentialPurpose → Text → Text → Entry → Bool
unfolding same_purpose
is_entry purpose credential user entry =
    same_purpose entry.purpose purpose && (same entry.credential credential && same entry.user user)

unfoldable pub lookup : CredentialPurpose → Text → Text → List Entry → Option Text
unfolding is_entry
lookup purpose credential user [] = none
lookup purpose credential user (entry ∷ values) =
    let rest = lookup purpose credential user values in
    if is_entry purpose credential user entry then some entry.password else rest

unfoldable pub without : CredentialPurpose → Text → Text → List Entry → List Entry
unfolding is_entry
without purpose credential user [] = []
without purpose credential user (entry ∷ values) =
    let rest = without purpose credential user values in
    if is_entry purpose credential user entry then rest else entry ∷ rest

unfoldable pub with_session_passwords : Option Text → Option Text → SessionOnlyStore
with_session_passwords password privilege_password = record {
  session_password = password;
  privilege_password = privilege_password;
  values = [];
}

unfoldable pub set_password_for :
    CredentialPurpose → Text → Text → Text → SessionOnlyStore → SessionOnlyStore × Result (Unit {0})
unfolding without
set_password_for purpose credential user password store = (
  record store {
    values =
        record { purpose = purpose; credential = credential; user = user; password = password }
        ∷ without purpose credential user store.values;
  },
  ok tt,
)

unfoldable pub fallback : CredentialPurpose → SessionOnlyStore → Option Text
fallback login store = store.session_password
fallback privilege store = store.privilege_password

no_password : Text → Error
no_password credential = classified_error auth (
    context (says (codes "session-only credential backend has no password for " ++ credential))
    ∷ message (says (codes "no entry"))
    ∷ [])

or_no_password : Text → Option Text → Result Text
unfolding no_password
or_no_password credential none = err (no_password credential)
or_no_password credential (some password) = ok password

unfoldable pub get_password_for : CredentialPurpose → Text → Text → SessionOnlyStore → Result Text
unfolding or_no_password
get_password_for purpose credential user store =
    elim (lookup purpose credential user store.values) [
      | some password ↦ ok password
      | none ↦ or_no_password credential (fallback purpose store)
    ]

unfoldable pub delete_password_for :
    CredentialPurpose → Text → Text → SessionOnlyStore → SessionOnlyStore × Result (Unit {0})
delete_password_for purpose credential user store =
    (record store { values = without purpose credential user store.values }, ok tt)

abbrev pub session_only_store : CredentialStore
session_only_store = record {
  State = SessionOnlyStore;
  set_password = set_password_for login;
  get_password = get_password_for login;
  delete_password = delete_password_for login;
  set_password_for = set_password_for;
  get_password_for = get_password_for;
  delete_password_for = delete_password_for;
  is_persistent = false;
}
