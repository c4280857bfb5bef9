-- ===== src/PolicyChange/Handler.antt =====
-- The policy commands that read and change the policy file (src/cli/policy_cmd.rs, `run_policy`),
-- without the lock, the audit record and the printed report.
pub mod Effect
pub mod Same
pub mod Written
use sshw.Base.{
  ℕ, Bool, true, false, not, ◌&&◌, ◌||◌, ◌==◌, Text, codes, List, [], ◌∷◌, Option, none, some,
  if◌then◌else◌, same, text_eq, ◌≡◌, refl, sym, ap, arith, ◌⊎◌, inl, inr, Bool-cases, Option-cases,
}
use sshw.Errors.{
  policy, says, Error, Result, ok, err, app_error, map_err, and_then, ◌>>=◌, Result-cases,
}
use sshw.Storage.{Disk, Stage, observe, read_optional, write_owner_only_atomic}
use sshw.Storage.Publish.{Outcome, write_owner_only_atomic-Outcome}
use sshw.Config.{SshwConfig}
use sshw.Policy.{AccountRule, PolicyFile, default_policy_file}
use sshw.Policy.File.{
  Json, read_optional_policy, load_policy_with_revision, save_policy_if_unchanged,
  parse_policy_file,
}
use sshw.PolicyChange.{PolicyRule, same_account, change_rule}

pub data PolicyCommand : Type 0 where
  init show enable disable : PolicyCommand
  allow remove : PolicyRule → PolicyCommand

-- What the report tells: the policy, and whether it was changed.
pub record PolicyReport : Type 0 where
  pub file : PolicyFile
  pub changed : Bool

unfoldable pub mutating : PolicyCommand → Bool
mutating show = false
mutating _ = true

missing : Error
missing = app_error policy (says (codes "policy file is missing; run 'sshw policy init' first"))

-- The policy that a command starts from.
unfoldable pub policy_before : PolicyCommand → Option PolicyFile → Result PolicyFile
unfolding missing
policy_before init (some file) = err (
    app_error policy
      (says (codes "policy file already exists; use 'sshw policy show' to inspect it")))
policy_before init none = ok default_policy_file
policy_before show none = ok default_policy_file
policy_before enable none = err missing
policy_before disable none = err missing
policy_before (allow rule) none = err missing
policy_before (remove rule) none = err missing
policy_before _ (some file) = ok file

unfoldable pub policy_after : Result SshwConfig → PolicyCommand → PolicyFile → Result PolicyFile
policy_after loaded enable file = ok (record file { enabled = true })
policy_after loaded disable file = ok (record file { enabled = false })
policy_after loaded (allow rule) file = change_rule loaded file rule true
policy_after loaded (remove rule) file = change_rule loaded file rule false
policy_after loaded _ file = ok file

pub same_list : {A : Type 0} → (A → A → Bool) → List A → List A → Bool
same_list eq [] [] = true
same_list eq (a ∷ as') (b ∷ bs) = let rest = same_list eq as' bs in eq a b && rest
same_list eq _ _ = false

pub same_bool : Bool → Bool → Bool
same_bool true b = b
same_bool false b = not b

-- The derived `==` of `PolicyFile`.
unfoldable pub same_policy : PolicyFile → PolicyFile → Bool
unfolding same_list same_bool
same_policy a b =
    a.version == b.version
    && same_bool a.enabled b.enabled
    && same_list (λ x y. same x y) a.allow_commands b.allow_commands
    && same_list (λ x y. same x y) a.allow_put_paths b.allow_put_paths
    && same_list (λ x y. same x y) a.allow_get_paths b.allow_get_paths
    && same_list same_account a.allow_accounts b.allow_accounts

unfoldable pub is_changed : PolicyCommand → PolicyFile → PolicyFile → Bool
unfolding same_policy
is_changed init before after = true
is_changed _ before after = not (same_policy after before)

swap : {A B : Type 0} → A × B → B × A
swap (a, b) = (b, a)

module _ (json : Json) where
  -- The save of a command that changes the policy.
  unfoldable pub save_changed :
      Bool → (Stage → Bool) → Bool → PolicyFile → Option Text → Disk → Disk × Result (Unit {0})
  unfolding swap
  save_changed readable fails true after revision disk =
      let (disk, r) = swap (save_policy_if_unchanged json readable fails after revision disk) in
      (disk, map_err policy r)
  save_changed readable fails false after revision disk = (disk, ok tt)

  -- A command on the policy that was read, with its revision.
  unfoldable pub run_loaded :
      Bool
      → (Stage → Bool)
      → Result SshwConfig
      → PolicyCommand
      → Option PolicyFile
      → Option Text
      → Disk
      → Disk × Result PolicyReport
  unfolding policy_before policy_after is_changed save_changed mutating
  run_loaded readable fails loaded action existing revision disk =
      and_then (disk, policy_before action existing)
        (λ before disk.
          and_then (disk, policy_after loaded action before)
            (λ after disk.
              let changed = is_changed action before after in
              and_then
                (save_changed readable fails (mutating action && changed) after revision disk)
                (λ u disk. (disk, ok (record { file = after; changed = changed })))))

  -- `readable` is whether the file can be read, first and for the check of the revision.
  unfoldable pub run_policy :
      Bool
      → Bool
      → (Stage → Bool)
      → Result SshwConfig
      → PolicyCommand
      → Disk
      → Disk × Result PolicyReport
  unfolding run_loaded
  run_policy readable readable' fails loaded action disk =
      and_then (disk, map_err policy (load_policy_with_revision json (observe readable disk)))
        (λ (existing, revision) disk.
          run_loaded readable' fails loaded action existing revision disk)
