-- ===== src/Profile.antt =====
-- The profile registry, and the choice of the active home (src/profile.rs). What an absolute path is
-- on the platform, and the canonical key of a home, are parameters.
pub mod File
pub mod Unique
pub mod Namespaces
use sshw.Base.{
  ℕ, Bool, true, false, not, ◌&&◌, ◌||◌, Text, codes, List, [], ◌∷◌, Option, none, some,
  if◌then◌else◌, ◌==◌, same, text_eq, option_eq, any, all, is_empty, is_some, is_control,
  is_ascii_alphanumeric, trim, strip_prefix, Map, get, insert, remove, contains_key,
}
use sshw.Errors.{
  ErrorKind, config, Message, says, Layer, context, message, Error, app_error, Result, ok, err,
  ◌>>=◌, ◌>>◌,
}
use sshw.Storage.{
  FileView, Disk, Stage, observe, settings_error, read_optional, write_owner_only_atomic,
}
use sshw.Home.{ResolvedHome, ad_hoc, profile_home, builtin_default_home, is_reserved_profile_id}

-- `PROFILE_REGISTRY_VERSION`.
abbrev pub profile_registry_version : ℕ
profile_registry_version = 1

pub record ProfileEntry : Type 0 where
  pub id : Text
  pub home : Text

pub record ProfileRegistry : Type 0 where
  pub version : ℕ
  pub default : Option Text
  pub profiles : Map ProfileEntry

abbrev pub default_registry : ProfileRegistry
default_registry = record { version = profile_registry_version; default = none; profiles = [] }

abbrev pub plain : Text → Error
plain text = message (says text) ∷ []

unfoldable pub validate_profile_name : Text → Result (Unit {0})
validate_profile_name name =
    if is_empty (trim name)
    then err (plain (codes "profile name cannot be empty"))
    else if any is_control name
    then err (plain (codes "profile name must not contain control characters"))
    else ok tt

unfoldable pub is_id_character : ℕ → Bool
is_id_character c = is_ascii_alphanumeric c || (c == b'_' || c == b'-')

has_valid_suffix : Option Text → Bool
has_valid_suffix none = false
has_valid_suffix (some suffix) = not (is_empty suffix) && all is_id_character suffix

unfoldable pub ensure_valid_profile_id : Text → Result (Unit {0})
unfolding has_valid_suffix
ensure_valid_profile_id id =
    if is_reserved_profile_id id
    then err (plain (codes "profile has a reserved id"))
    else if has_valid_suffix (strip_prefix (codes "p_") id)
    then ok tt
    else err (plain (codes "profile has an invalid credential namespace id"))

module _ (is_absolute : Text → Bool) where
  check_home : Text → Result (Unit {0})
  check_home home =
      if is_absolute home then ok tt else err (plain (codes "profile home must be absolute"))

  -- `ids.insert`, which tells the profile that had the id.
  claim_id : Text → Text → Map Text → Result (Map Text)
  claim_id id name ids = elim (get id ids) [
    | some previous ↦ err (plain (codes "profiles use duplicate credential namespace id"))
    | none ↦ ok (insert id name ids)
  ]

  unfoldable pub validate_entries : Map ProfileEntry → Map Text → Result (Unit {0})
  unfolding check_home claim_id
  validate_entries [] ids = ok tt
  validate_entries ((name, entry) ∷ profiles) ids = validate_profile_name name >>= λ u.
      ensure_valid_profile_id entry.id >>= λ v.
      check_home entry.home >>= λ w. claim_id entry.id name ids >>= validate_entries profiles

  check_version : ℕ → Result (Unit {0})
  check_version version =
      if version == profile_registry_version
      then ok tt
      else err (plain (codes "unsupported profile registry version"))

  check_default : Option Text → Map ProfileEntry → Result (Unit {0})
  check_default none profiles = ok tt
  check_default (some name) profiles =
      if contains_key name profiles
      then ok tt
      else err (plain (codes "default profile is not present in the registry"))

  unfoldable pub validate_registry : ProfileRegistry → Result (Unit {0})
  unfolding check_version check_default
  validate_registry registry = do
    check_version registry.version
    check_default registry.default registry.profiles
    validate_entries registry.profiles []

module _ (canonical_key : Text → Text) where
  of_entry : Error → Option ProfileEntry → Result ResolvedHome
  of_entry missing none = err missing
  of_entry missing (some entry) = do
    ensure_valid_profile_id entry.id
    ok (profile_home entry.home entry.id)

  of_registry : Option Text → Map ProfileEntry → Text → Result ResolvedHome
  unfolding of_entry
  of_registry none profiles sshw_base = ok (builtin_default_home sshw_base)
  of_registry (some name) profiles sshw_base =
      of_entry (plain (codes "default profile is not present in the registry")) (get name profiles)

  -- `--home`, then `SSHW_HOME`, then `--profile`, then the registry's default, then the built-in home.
  unfoldable pub select_home_with_registry :
      Option Text → Option Text → Option Text → ProfileRegistry → Text → Result ResolvedHome
  unfolding of_entry of_registry
  select_home_with_registry (some path) env_home (some name) registry sshw_base =
      err (plain (codes "cannot use --home and --profile together"))
  select_home_with_registry (some path) env_home none registry sshw_base =
      ok (ad_hoc path (canonical_key path))
  select_home_with_registry none (some env) (some name) registry sshw_base =
      err (plain (codes "cannot use --profile while SSHW_HOME is set"))
  select_home_with_registry none (some env) none registry sshw_base =
      ok (ad_hoc env (canonical_key env))
  select_home_with_registry none none (some name) registry sshw_base =
      of_entry (app_error config (says (codes "unknown profile"))) (get name registry.profiles)
  select_home_with_registry none none none registry sshw_base =
      of_registry registry.default registry.profiles sshw_base
