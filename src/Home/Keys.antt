-- ===== src/Home/Keys.antt =====
-- Credential keys (src/home.rs). Base64 is a parameter with its documented laws.
pub mod Ownership
use sshw.Base.{
  Bool, true, false, not, ◌&&◌, ◌||◌, Text, codes, List, [], ◌∷◌, ◌++◌, Option, none, some, ◌≡◌,
  if◌then◌else◌, ◌==◌, same, text_eq, all, AllOf, is_empty, is_ascii_hexdigit, split,
}
use sshw.Home.{CredentialPurpose, login, privilege, label, CredentialNamespace}
use sshw.Home.Hash.{as_bytes, fnv1a_hex}

-- `URL_SAFE_NO_PAD` of the base64 library, on bytes.
pub record Base64 : Type 0 where
  pub encode : Text → Text
  pub decode : Text → Option Text

-- What the library documents: decoding undoes encoding, and the alphabet has no colon.
pub record IsBase64 (b64 : Base64) : Type 0 where
  pub decode-encode : (bytes : Text) → b64.decode (b64.encode bytes) ≡ some bytes
  pub encode_lacks_colon : (bytes : Text) → AllOf (λ c. (c == b':') ≡ false) (b64.encode bytes)

unfoldable pub legacy_credential_key : CredentialNamespace → Text → Text
legacy_credential_key ns server = codes "sshw:" ++ (ns.token ++ b':' ∷ server)

unfoldable pub legacy_privilege_credential_key : CredentialNamespace → Text → Text
legacy_privilege_credential_key ns server =
    codes "sshw:" ++ (ns.token ++ (codes ":privilege:" ++ server))

-- The generation that `credential_generation` makes of the time, the process and a counter.
unfoldable pub credential_generation : Text → Text
credential_generation nanos_pid_counter = fnv1a_hex nanos_pid_counter

is_generation : Text → Bool
is_generation generation = not (is_empty generation) && all is_ascii_hexdigit generation

module _ (b64 : Base64) where
  abbrev pub encoded : Text → Text
  encoded s = b64.encode (as_bytes s)

  unfoldable pub credential_key_v2 : CredentialNamespace → CredentialPurpose → Text → Text → Text
  credential_key_v2 ns purpose server generation =
      codes "sshw"
      ++ b':'
        ∷ (codes "v2"
            ++ b':'
              ∷ (encoded ns.token
                  ++ b':' ∷ (label purpose ++ b':' ∷ (encoded server ++ b':' ∷ generation))))

  unfoldable pub credential_key_v3 :
      CredentialNamespace → CredentialPurpose → Text → Text → Text → Text
  credential_key_v3 ns purpose server user generation =
      codes "sshw"
      ++ b':'
        ∷ (codes "v3"
            ++ b':'
              ∷ (encoded ns.token
                  ++ b':'
                    ∷ (label purpose
                        ++ b':' ∷ (encoded server ++ b':' ∷ (encoded user ++ b':' ∷ generation)))))

  unfoldable pub new_account_credential_key :
      CredentialNamespace → CredentialPurpose → Text → Text → Text → Text
  unfolding credential_generation
  new_account_credential_key ns purpose server user nanos_pid_counter =
      credential_key_v3 ns purpose server user (credential_generation nanos_pid_counter)

  decodes_to : Text → Text → Bool
  decodes_to part s = elim (b64.decode part) [ none ↦ false | some bytes ↦ same bytes (as_bytes s) ]

  matches_v3 : CredentialNamespace → CredentialPurpose → Text → Text → List Text → Bool
  unfolding decodes_to is_generation
  matches_v3 ns purpose server user
        (prefix ∷ version ∷ token ∷ key_purpose ∷ key_server ∷ key_user ∷ generation ∷ []) =
      same prefix (codes "sshw")
      && (same version (codes "v3")
          && (same key_purpose (label purpose)
              && (is_generation generation
                  && (decodes_to token ns.token
                      && (decodes_to key_server server && decodes_to key_user user)))))
  matches_v3 ns purpose server user parts = false

  unfoldable pub account_credential_key_matches :
      CredentialNamespace → CredentialPurpose → Text → Text → Text → Bool
  unfolding matches_v3
  account_credential_key_matches ns purpose server user credential =
      matches_v3 ns purpose server user (split (λ c. c == b':') credential)

  matches_v2 : CredentialNamespace → CredentialPurpose → Text → List Text → Bool
  unfolding decodes_to is_generation
  matches_v2 ns purpose server
        (prefix ∷ version ∷ token ∷ key_purpose ∷ key_server ∷ generation ∷ []) =
      same prefix (codes "sshw")
      && (same version (codes "v2")
          && (same key_purpose (label purpose)
              && (is_generation generation
                  && (decodes_to token ns.token && decodes_to key_server server))))
  matches_v2 ns purpose server parts = false

  legacy_key : CredentialPurpose → CredentialNamespace → Text → Text
  legacy_key login ns server = legacy_credential_key ns server
  legacy_key privilege ns server = legacy_privilege_credential_key ns server

  unfoldable pub credential_key_matches :
      CredentialNamespace → CredentialPurpose → Text → Text → Bool
  unfolding matches_v2 legacy_key
  credential_key_matches ns purpose server credential =
      same credential (legacy_key purpose ns server)
      || matches_v2 ns purpose server (split (λ c. c == b':') credential)
