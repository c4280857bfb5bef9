-- ===== src/Home/Keys/Ownership.antt =====
-- Whose a credential key is.
use sshw.Base.{
  ℕ, suc, length, true, false, Text, codes, List, [], ◌∷◌, ◌++◌, ◌≡◌, ◌≢◌, refl, arith, ◌==◌,
  text_eq, all, AllOf, is_empty, is_ascii_hexdigit, split, split_at_separator, split_of_lacks,
  starts_with-append,
}
use sshw.Errors.{ok}
use sshw.Home.{
  CredentialPurpose, login, privilege, label, CredentialNamespace, validate_server_name,
  reserved_server_prefix,
}
use sshw.Home.Hash.{as_bytes, as_bytes-injective, fnv1a_hex_lem}
use sshw.Home.Keys.{
  Base64, IsBase64, legacy_credential_key, legacy_privilege_credential_key, credential_generation,
  is_generation, encoded, credential_key_v3, new_account_credential_key, decodes_to, matches_v3,
  account_credential_key_matches,
}

hex_lacks_colon : (s : Text) → all is_ascii_hexdigit s ≡ true → AllOf (λ c. (c == b':') ≡ false) s
unfolding all is_ascii_hexdigit
hex_lacks_colon [] h = tt
hex_lacks_colon (c ∷ s) h = (ground arith, hex_lacks_colon s (ground arith))

label_lacks_colon : (purpose : CredentialPurpose) → AllOf (λ c. (c == b':') ≡ false) (label purpose)
unfolding label
label_lacks_colon login = ground arith
label_lacks_colon privilege = ground arith

is_empty_of_length : (s : Text) (n : ℕ) → length s ≡ suc n → is_empty s ≡ false
unfolding is_empty
is_empty_of_length [] n h = absurd (ground arith)
is_empty_of_length (c ∷ s) n h = refl

label-injective : (p q : CredentialPurpose) → label p ≡ label q → p ≡ q
unfolding label
label-injective login login h = refl
label-injective login privilege h = cc
label-injective privilege login h = cc
label-injective privilege privilege h = refl

-- One part in front of a colon.
split_part :
    (a b : Text)
    → AllOf (λ c. (c == b':') ≡ false) a
    → split (λ c. c == b':') (a ++ b':' ∷ b) ≡ a ∷ split (λ c. c == b':') b
split_part a b h =
    rw (split_at_separator (λ c. c == b':') a b b':' refl, split_of_lacks (λ c. c == b':') a h)

module _ (b64 : Base64) (laws : IsBase64 b64) (ns : CredentialNamespace) where
  split-key_v3 :
      (purpose : CredentialPurpose) (server user generation : Text)
      → all is_ascii_hexdigit generation ≡ true
      → split (λ c. c == b':') (credential_key_v3 b64 ns purpose server user generation)
        ≡ codes "sshw"
          ∷ codes "v3"
          ∷ encoded b64 ns.token
          ∷ label purpose
          ∷ encoded b64 server
          ∷ encoded b64 user
          ∷ generation
          ∷ []
  unfolding credential_key_v3
  split-key_v3 purpose server user generation h = rw (
    split_part (codes "sshw") _ (ground arith),
    split_part (codes "v3") _ (ground arith),
    split_part (encoded b64 ns.token) _ (laws.encode_lacks_colon _),
    split_part (label purpose) _ (label_lacks_colon purpose),
    split_part (encoded b64 server) _ (laws.encode_lacks_colon _),
    split_part (encoded b64 user) _ (laws.encode_lacks_colon _),
    split_of_lacks (λ c. c == b':') generation (hex_lacks_colon generation h),
  )

  decodes_to-encoded : (s : Text) → decodes_to b64 (encoded b64 s) s ≡ true
  unfolding decodes_to
  decodes_to-encoded s = ground (arith, laws.decode-encode (as_bytes s))

  -- A key that was made for an account is recognised as that account's.
  pub account_credential_key_matches-new :
      (purpose : CredentialPurpose) (server user nanos_pid_counter : Text)
      → account_credential_key_matches b64 ns purpose server user
          (new_account_credential_key b64 ns purpose server user nanos_pid_counter)
        ≡ true
  unfolding account_credential_key_matches new_account_credential_key matches_v3 is_generation
  account_credential_key_matches-new purpose server user nanos_pid_counter =
      let (hex, size) = fnv1a_hex_lem nanos_pid_counter in
      rw (split-key_v3 purpose server user (credential_generation nanos_pid_counter) hex) (
        ground (
          arith,
          decodes_to-encoded ns.token,
          decodes_to-encoded server,
          decodes_to-encoded user,
          hex,
          is_empty_of_length _ 15 size,
        ))

module _ (b64 : Base64) where
  decodes_to_unique :
      (part s t : Text) → decodes_to b64 part s ≡ true → decodes_to b64 part t ≡ true → s ≡ t
  unfolding decodes_to
  decodes_to_unique part s t h k = as_bytes-injective s t (ground arith)

  -- One account, in one namespace and for one purpose.
  abbrev pub SameOwner :
      CredentialNamespace
      → CredentialNamespace
      → CredentialPurpose
      → CredentialPurpose
      → Text
      → Text
      → Text
      → Text
      → Type 0
  SameOwner ns ns' p p' s u s' u' = (ns.token ≡ ns'.token) × (p ≡ p') × (s ≡ s') × (u ≡ u')

  parts-SameOwner :
      (ns ns' : CredentialNamespace) (p p' : CredentialPurpose) (s u s' u' : Text)
      (parts : List Text)
      → matches_v3 b64 ns p s u parts ≡ true
      → matches_v3 b64 ns' p' s' u' parts ≡ true
      → SameOwner ns ns' p p' s u s' u'
  unfolding matches_v3
  parts-SameOwner ns ns' p p' s u s' u' (a ∷ b ∷ token ∷ c ∷ d ∷ e ∷ generation ∷ []) h k = (
    decodes_to_unique token _ _ (ground arith) (ground arith),
    label-injective p p' (ground arith),
    decodes_to_unique d s s' (ground arith) (ground arith),
    decodes_to_unique e u u' (ground arith) (ground arith),
  )
  parts-SameOwner ns ns' p p' s u s' u' parts h k = cc

  -- No key is recognised as that of two accounts: not across namespaces, purposes, servers or users.
  pub account_credential_key_matches-SameOwner :
      (ns ns' : CredentialNamespace) (p p' : CredentialPurpose) (s u s' u' key : Text)
      → account_credential_key_matches b64 ns p s u key ≡ true
      → account_credential_key_matches b64 ns' p' s' u' key ≡ true
      → SameOwner ns ns' p p' s u s' u'
  unfolding account_credential_key_matches
  account_credential_key_matches-SameOwner ns ns' p p' s u s' u' key =
      parts-SameOwner ns ns' p p' s u s' u' (split (λ c. c == b':') key)

append-cancel : (a b c : Text) → a ++ b ≡ a ++ c → b ≡ c
append-cancel [] b c h = h
append-cancel (x ∷ a) b c h = append-cancel a b c (ground arith)

-- A server name that is valid has no version 1 login key that is the version 1 privilege key of
-- a server of the same home.
pub legacy_keys_apart :
    (ns : CredentialNamespace) (server other : Text)
    → validate_server_name server ≡ ok tt
    → legacy_credential_key ns server ≢ legacy_privilege_credential_key ns other
unfolding validate_server_name legacy_credential_key legacy_privilege_credential_key
legacy_keys_apart ns server other h e =
    let q : b':' ∷ server ≡ b':' ∷ (reserved_server_prefix ++ other) =
      append-cancel ns.token _ _ (append-cancel (codes "sshw:") _ _ e) in
    ground (arith, starts_with-append reserved_server_prefix other)
