-- ===== src/Tests/Profile.antt =====
-- Runs of the profile registry.
use sshw.Base.{
  none, true, false, Bool, true, Text, codes, [], ◌∷◌, some, ◌≡◌, ◌≢◌, refl, AllOf, starts_with,
  strip_prefix, contains_key, is_empty, trim, trim_matches, trim_start_matches, trim_end_matches,
  is_whitespace, any, all, is_control, is_ascii_alphanumeric, is_ascii_alphabetic, is_ascii_digit,
  is_ascii_upper, text_eq, text_dec, get, insert, text_lt,
}
use sshw.Errors.{ok}
use sshw.Home.{profile_namespace, home_namespace, builtin_default_home, is_reserved_profile_id}
use sshw.Storage.{Disk}
use sshw.Profile.File.{RegistryJson}
use sshw.Profile.{
  ProfileRegistry, profile_registry_version, validate_registry, validate_entries,
  validate_profile_name, ensure_valid_profile_id, is_id_character,
}
use sshw.Profile.Unique.{IsSound, UniqueIds, validated_registry}
use sshw.Profile.Namespaces.{profile_namespace_apart}

-- Whether a path is absolute on Unix.
abbrev starts_at_root : Text → Bool
starts_at_root path = starts_with (codes "/") path

abbrev registry : ProfileRegistry
registry = record {
  version = 1;
  default = some (codes "work");
  profiles =
      (codes "home", record { id = codes "p_1"; home = codes "/a" })
      ∷ (codes "work", record { id = codes "p_2"; home = codes "/b" })
      ∷ [];
}

is_valid_registry : validate_registry starts_at_root registry ≡ ok tt
unfolding validate_registry validate_entries validate_profile_name ensure_valid_profile_id
    is_id_character is_reserved_profile_id starts_with strip_prefix contains_key is_empty trim
    trim_matches trim_start_matches trim_end_matches is_whitespace any all is_control
    is_ascii_alphanumeric is_ascii_alphabetic is_ascii_digit is_ascii_upper text_eq text_dec get
    insert text_lt
is_valid_registry = refl

validated_registry_example :
    (registry.version ≡ profile_registry_version)
    × UniqueIds registry.profiles
    × AllOf (λ (name, entry). IsSound starts_at_root name entry) registry.profiles
    × ((name : Text) → registry.default ≡ some name → contains_key name registry.profiles ≡ true)
validated_registry_example = validated_registry starts_at_root registry is_valid_registry

valid_id : ensure_valid_profile_id (codes "p_1") ≡ ok tt
unfolding ensure_valid_profile_id is_id_character is_reserved_profile_id starts_with strip_prefix
    is_empty all is_ascii_alphanumeric is_ascii_alphabetic is_ascii_digit is_ascii_upper text_eq
    text_dec
valid_id = refl

profile_namespace_apart_example :
    ((profile_namespace (codes "p_1")).token ≢ (home_namespace (codes "/a")).token)
    × ((profile_namespace (codes "p_1")).token
        ≢ (builtin_default_home (codes "/s")).namespace.token)
profile_namespace_apart_example =
    profile_namespace_apart (codes "p_1") (codes "/a") (codes "/s") valid_id

abbrev registry_json : RegistryJson
registry_json = record { parse = λ text. none; print_registry = λ saved. codes "new" }

abbrev old_file : Disk
old_file = record { file = some (codes "old"); staged = false }
