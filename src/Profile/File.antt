-- ===== src/Profile/File.antt =====
-- The file of the profile registry (src/profile.rs). serde_json is a parameter.
pub mod Saved
use sshw.Base.{
  Bool, Text, codes, [], ◌∷◌, Option, none, some, if◌then◌else◌, same, text_eq, option_eq, Map,
  remove, contains_key,
}
use sshw.Errors.{says, context, Result, ok, err, ◌>>=◌, ◌>>◌}
use sshw.Storage.{
  FileView, Disk, Stage, observe, settings_error, read_optional, write_owner_only_atomic,
}
use sshw.Profile.{ProfileEntry, ProfileRegistry, default_registry, plain, validate_registry}

-- serde_json with the derived reader and writer.
pub record RegistryJson : Type 0 where
  pub parse : Text → Option ProfileRegistry
  pub print_registry : ProfileRegistry → Text

-- `profiles.keys().next()`
first_key : Map ProfileEntry → Option Text
first_key [] = none
first_key ((name, entry) ∷ profiles) = some name

module _ (is_absolute : Text → Bool) where
  -- An error that the loader labels.
  labelled {ℓ} : {A : Type ℓ} → Text → Result A → Result A
  labelled label (ok a) = ok a
  labelled label (err e) = err (settings_error label e)

  abbrev load_label : Text
  load_label = codes "failed to load profile registry"

  unfoldable pub read_registry_contents : FileView → Result (Option Text)
  read_registry_contents file = read_optional load_label file

  module _ (json : RegistryJson) where
    parse_registry : Text → Result ProfileRegistry
    unfolding labelled
    parse_registry text = elim (json.parse text) [
      | none ↦ err (settings_error load_label (plain (codes "invalid JSON")))
      | some registry ↦ ok registry
    ]

    load_contents : Option Text → Result (ProfileRegistry × Option Text)
    unfolding labelled parse_registry
    load_contents none = ok (default_registry, none)
    load_contents (some text) = do
      registry ← parse_registry text
      labelled load_label (validate_registry is_absolute registry)
      ok (registry, some text)

    -- The revision is the text that was read.
    unfoldable pub load_registry_with_revision : FileView → Result (ProfileRegistry × Option Text)
    unfolding load_contents
    load_registry_with_revision file = do
      contents ← read_registry_contents file
      load_contents contents

    -- What is left of the registry without the profile that is removed.
    without_target : Text → ProfileRegistry → ProfileRegistry
    unfolding first_key
    without_target target_name registry =
        let rest = remove target_name registry.profiles in
        record registry {
          profiles = rest;
          default =
              if same registry.default (some target_name) then first_key rest else registry.default;
        }

    check_for_removal : Text → ProfileRegistry → Result (Unit {0})
    unfolding without_target labelled
    check_for_removal target_name registry =
        (if contains_key target_name registry.profiles
          then ok tt
          else labelled load_label (validate_registry is_absolute registry))
        >>= λ u.
            labelled (codes "failed to load profile registry after removing profile")
              (validate_registry is_absolute (without_target target_name registry))

    load_for_removal : Text → Option Text → Result (ProfileRegistry × Option Text)
    unfolding parse_registry check_for_removal
    load_for_removal target_name none = ok (default_registry, none)
    load_for_removal target_name (some text) = do
      registry ← parse_registry text
      check_for_removal target_name registry
      ok (registry, some text)

    -- A registry that is not valid loads for the removal of the profile that makes it so.
    unfoldable pub load_registry_for_removal_with_revision :
        FileView → Text → Result (ProfileRegistry × Option Text)
    unfolding load_for_removal
    load_registry_for_removal_with_revision file target_name = do
      contents ← read_registry_contents file
      load_for_removal target_name contents

    saved : Result (Unit {0}) × Disk → Result (Unit {0}) × Disk
    saved (ok u, disk) = (ok tt, disk)
    saved (err e, disk) = (err (context (says (codes "failed to save profile registry")) ∷ e), disk)

    -- A registry that is not valid is not saved; a failure of the printer is not modelled.
    unfoldable pub save_registry :
        (Stage → Bool) → ProfileRegistry → Disk → Result (Unit {0}) × Disk
    unfolding saved
    save_registry fails registry disk = elim (validate_registry is_absolute registry) [
      | err e ↦ (err (plain (codes "failed to save profile registry")), disk)
      | ok u ↦ saved (write_owner_only_atomic fails (json.print_registry registry) disk)
    ]

    save_if_same :
        (Stage → Bool)
        → ProfileRegistry
        → Option Text
        → Disk
        → Option Text
        → Result (Unit {0}) × Disk
    save_if_same fails registry revision disk current =
        if same current revision then save_registry fails registry disk else (
          err (plain (codes "failed to save profile registry: registry changed concurrently")),
          disk,
        )

    unfoldable pub save_registry_if_unchanged :
        Bool → (Stage → Bool) → ProfileRegistry → Option Text → Disk → Result (Unit {0}) × Disk
    unfolding save_if_same
    save_registry_if_unchanged readable fails registry revision disk =
        elim (read_registry_contents (observe readable disk)) [
          | err e ↦ (
            err (plain (codes "failed to save profile registry while checking its revision")),
            disk,
          )
          | ok current ↦ save_if_same fails registry revision disk current
        ]
