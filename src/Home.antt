-- ===== src/Home.antt =====
-- The active home: names, the hash behind generated ids, and the layout (src/home.rs). The
-- credential keys are in a module below.
pub mod Hash
pub mod Keys
use sshw.Base.{
  ℕ, Bool, true, false, ◌||◌, Text, codes, List, [], ◌∷◌, ◌++◌, if◌then◌else◌, ◌==◌, same, text_eq,
  any, is_empty, is_control, trim, starts_with,
}
use sshw.Errors.{Message, says, Layer, message, Error, Result, ok, err, ◌>>=◌, ◌>>◌}
use sshw.Home.Hash.{fnv1a_hex}

pub data CredentialPurpose : Type 0 where
  login privilege : CredentialPurpose

unfoldable pub label : CredentialPurpose → Text
label login = codes "login"
label privilege = codes "privilege"

pub record CredentialNamespace : Type 0 where
  pub token : Text

abbrev plain_error : Text → Error
plain_error text = message (says text) ∷ []

abbrev pub reserved_server_prefix : Text
reserved_server_prefix = codes "privilege:"

unfoldable pub validate_server_name : Text → Result (Unit {0})
validate_server_name name =
    if is_empty (trim name)
    then err (plain_error (codes "server name cannot be empty"))
    else if any is_control name
    then err (plain_error (codes "server name must not contain control characters"))
    else if starts_with reserved_server_prefix name
    then err (plain_error (codes "server name must not use the reserved 'privilege:' prefix"))
    else ok tt

unfoldable pub is_reserved_profile_id : Text → Bool
is_reserved_profile_id id =
    is_empty id || same id (codes "default") || starts_with (codes "home_") id

pub record ResolvedHome : Type 0 where
  pub root : Text
  pub config_path : Text
  pub known_hosts_path : Text
  pub policy_path : Text
  pub audit_path : Text
  pub namespace : CredentialNamespace

-- `Path::join` with a relative name.
join : Text → Text → Text
join [] name = name
join (c ∷ []) name = if c == b'/' then c ∷ name else c ∷ b'/' ∷ name
join (c ∷ d ∷ root) name = c ∷ join (d ∷ root) name

-- The description for `doctor` is left out.
unfoldable pub for_root : Text → CredentialNamespace → ResolvedHome
unfolding join
for_root root namespace = record {
  root = root;
  config_path = join root (codes "servers.json");
  known_hosts_path = join root (codes "known_hosts");
  policy_path = join root (codes "policy.json");
  audit_path = join root (codes "audit.jsonl");
  namespace = namespace;
}

unfoldable pub profile_namespace : Text → CredentialNamespace
profile_namespace id = record { token = id }

-- `for_home`; the argument is the canonical key of the home, which the file system decides.
unfoldable pub home_namespace : Text → CredentialNamespace
home_namespace canonical_key = record { token = codes "home_" ++ fnv1a_hex canonical_key }

unfoldable pub ad_hoc : Text → Text → ResolvedHome
unfolding for_root home_namespace
ad_hoc root canonical_key = for_root root (home_namespace canonical_key)

unfoldable pub profile_home : Text → Text → ResolvedHome
unfolding for_root profile_namespace
profile_home root profile_id = for_root root (profile_namespace profile_id)

unfoldable pub builtin_default_home : Text → ResolvedHome
unfolding profile_home join
builtin_default_home sshw_base =
    profile_home (join (join sshw_base (codes "profiles")) (codes "default")) (codes "default")

-- The text that is hashed joins the canonical key of the home, the name and the time.
unfoldable pub generate_profile_id : Text → Text → Text → Text
generate_profile_id canonical_key name nanos =
    codes "p_" ++ fnv1a_hex (canonical_key ++ b'|' ∷ (name ++ b'|' ∷ nanos))
