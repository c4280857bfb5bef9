-- ===== src/Profile/Namespaces.antt =====
-- Credential namespaces of profiles and of other homes.
use sshw.Base.{
  ℕ, true, false, Text, codes, [], ◌∷◌, ◌++◌, ◌≡◌, ◌≢◌, refl, arith, text_eq, text_dec, all, length,
  is_empty, strip_prefix, starts_with, starts_with-append, is_ascii_hexdigit, is_ascii_alphabetic,
  is_ascii_upper, is_ascii_alphanumeric,
}
use sshw.Errors.{ok}
use sshw.Home.{
  profile_namespace, home_namespace, builtin_default_home, profile_home, for_root,
  generate_profile_id, is_reserved_profile_id,
}
use sshw.Home.Hash.{fnv1a_hex, fnv1a_hex_lem}
use sshw.Profile.{ensure_valid_profile_id, is_id_character}

-- The namespace of a profile with a valid id is that of no home chosen by its path, and not that
-- of the built-in home.
pub profile_namespace_apart :
    (id canonical_key sshw_base : Text)
    → ensure_valid_profile_id id ≡ ok tt
    → ((profile_namespace id).token ≢ (home_namespace canonical_key).token)
      × ((profile_namespace id).token ≢ (builtin_default_home sshw_base).namespace.token)
unfolding ensure_valid_profile_id is_reserved_profile_id profile_namespace home_namespace
    builtin_default_home profile_home for_root
profile_namespace_apart id canonical_key sshw_base h = (
  λ e. ground (arith, starts_with-append (codes "home_") (fnv1a_hex canonical_key)),
  λ e. ground arith,
)

hexdigit_is_id : (c : ℕ) → is_ascii_hexdigit c ≡ true → is_id_character c ≡ true
unfolding is_id_character is_ascii_hexdigit is_ascii_alphanumeric is_ascii_alphabetic is_ascii_upper
hexdigit_is_id c h = ground arith

hexdigits_are_id : (s : Text) → all is_ascii_hexdigit s ≡ true → all is_id_character s ≡ true
unfolding all
hexdigits_are_id [] h = refl
hexdigits_are_id (c ∷ s) h = ground (arith, hexdigit_is_id c, hexdigits_are_id s)

filled : (s : Text) → length s ≡ 16 → is_empty s ≡ false
unfolding is_empty
filled [] h = absurd (ground arith)
filled (c ∷ s) h = refl

prefixed :
    (suffix : Text)
    → is_empty suffix ≡ false
    → all is_id_character suffix ≡ true
    → ensure_valid_profile_id (codes "p_" ++ suffix) ≡ ok tt
unfolding ensure_valid_profile_id is_reserved_profile_id is_empty starts_with strip_prefix text_eq
    text_dec
prefixed suffix h k = ground arith

-- A generated id is valid.
pub ensure_valid_profile_id-generate_profile_id :
    (canonical_key name nanos : Text)
    → ensure_valid_profile_id (generate_profile_id canonical_key name nanos) ≡ ok tt
unfolding generate_profile_id
ensure_valid_profile_id-generate_profile_id canonical_key name nanos =
    let text = canonical_key ++ b'|' ∷ (name ++ b'|' ∷ nanos) in
    let (hex, size) = fnv1a_hex_lem text in
    prefixed (fnv1a_hex text) (filled _ size) (hexdigits_are_id _ hex)
