-- ===== src/Credentials/Session/Keyed.antt =====
-- The store in memory is a map from purpose, credential and user to a password.
use sshw.Base.{true, Text, List, [], ◌∷◌, none, ◌≡◌, refl, arith, text_eq}
use sshw.Errors.{ok}
use sshw.Home.{CredentialPurpose, login, privilege}
use sshw.Credentials.{IsKeyed, purpose_key}
use sshw.Credentials.Session.{
  Entry, SessionOnlyStore, same_purpose, is_entry, lookup, without, set_password_for,
  get_password_for, delete_password_for, fallback, session_only_store,
}

same_purpose_refl : (purpose : CredentialPurpose) → same_purpose purpose purpose ≡ true
unfolding same_purpose
same_purpose_refl login = refl
same_purpose_refl privilege = refl

is_entry_of_same :
    (purpose other : CredentialPurpose) (credential user other_credential other_user : Text)
    (entry : Entry)
    → is_entry purpose credential user entry ≡ true
    → is_entry other other_credential other_user entry ≡ true
    → purpose_key other other_credential other_user ≡ purpose_key purpose credential user
unfolding is_entry same_purpose
is_entry_of_same purpose other credential user other_credential other_user entry h k = ground arith

lookup-without_other :
    (purpose : CredentialPurpose) (credential user : Text) (other : CredentialPurpose)
    (other_credential other_user : Text) (values : List Entry)
    → ¬ (purpose_key other other_credential other_user ≡ purpose_key purpose credential user)
    → lookup other other_credential other_user (without purpose credential user values)
      ≡ lookup other other_credential other_user values
unfolding lookup without
lookup-without_other purpose credential user other other_credential other_user [] n = refl
lookup-without_other purpose credential user other other_credential other_user (entry ∷ values) n =
    ground (
      arith,
      is_entry_of_same purpose other credential user other_credential other_user entry,
      lookup-without_other purpose credential user other other_credential other_user values n,
    )

lookup-without :
    (purpose : CredentialPurpose) (credential user : Text) (values : List Entry)
    → lookup purpose credential user (without purpose credential user values) ≡ none
unfolding lookup without
lookup-without purpose credential user [] = refl
lookup-without purpose credential user (entry ∷ values) =
    ground (arith, lookup-without purpose credential user values)

-- A password that was set is the one that is read.
pub session-set :
    (purpose : CredentialPurpose) (credential user password : Text) (store : SessionOnlyStore)
    → get_password_for purpose credential user
        (set_password_for purpose credential user password store).0
      ≡ ok password
unfolding get_password_for set_password_for lookup is_entry
session-set purpose credential user password store = ground (arith, same_purpose_refl purpose)

-- Once deleted, an entry reads as the password of the session for its purpose, if there is one.
pub session-delete :
    (purpose : CredentialPurpose) (credential user : Text) (store : SessionOnlyStore)
    → get_password_for purpose credential user (delete_password_for purpose credential user store).0
      ≡ get_password_for purpose credential user (record store { values = [] })
unfolding get_password_for delete_password_for lookup fallback
session-delete purpose credential user store =
    ground (arith, lookup-without purpose credential user store.values)

-- Setting or deleting a password touches no other entry, those of the other purpose included.
pub session-IsKeyed : IsKeyed session_only_store purpose_key
unfolding get_password_for set_password_for delete_password_for lookup fallback
session-IsKeyed = record {
  set_other = λ purpose credential user password other other_credential other_user store n. ground (
    arith,
    is_entry_of_same purpose other credential user other_credential other_user
        (record { purpose = purpose; credential = credential; user = user; password = password }),
    lookup-without_other purpose credential user other other_credential other_user store.values n,
    same_purpose_refl purpose,
  );
  delete_other = λ purpose credential user other other_credential other_user store n. ground (
    arith,
    lookup-without_other purpose credential user other other_credential other_user store.values n,
  );
}
