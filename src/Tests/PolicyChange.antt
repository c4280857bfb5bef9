-- ===== src/Tests/PolicyChange.antt =====
-- Runs of a change of the policy's rules.
use sshw.Base.{
  option_eq, none, some, strip_prefix, starts_with, is_empty, trim, any, text_eq, split,
  is_path_separator, true, false, codes, [], ◌∷◌, ◌≡◌, refl, Bool,
}
use sshw.Errors.{Result, ok, err}
use sshw.Policy.{PolicyFile, default_policy_file}
use sshw.Policy.Paths.{has_parent_traversal}
use sshw.Storage.{write_owner_only_atomic, Disk}
use sshw.Policy.File.{load_policy_with_revision, read_optional_policy, save_policy_if_unchanged}
use sshw.PolicyChange.Handler.{init, run_policy}
use sshw.PolicyChange.Handler.Written.{Written, run_policy-Written}
use sshw.Tests.Data.{policy_json}
use sshw.PolicyChange.{PolicyRule, put, change_rule}
use sshw.PolicyChange.Monotone.{has_rule, Ordered, AllowsWithin, change_rule-AllowsWithin}

abbrev uploads : PolicyRule
uploads = put (codes "remote:/srv/app")

abbrev with_uploads : PolicyFile
with_uploads = record default_policy_file { allow_put_paths = codes "/srv/app" ∷ [] }

uploads_added : change_rule (err []) default_policy_file uploads true ≡ ok with_uploads
unfolding change_rule strip_prefix starts_with is_empty trim text_eq has_parent_traversal any split
    is_path_separator
uploads_added = refl

refused : Result PolicyFile → Bool
refused (ok file) = false
refused (err e) = true

root_refused : refused (change_rule (err []) default_policy_file (put (codes "//")) true) ≡ true
unfolding change_rule refused strip_prefix is_empty trim text_eq
root_refused = refl

change_rule-AllowsWithin_example :
    (has_rule with_uploads uploads ≡ true)
    × Ordered AllowsWithin true default_policy_file with_uploads
change_rule-AllowsWithin_example =
    change_rule-AllowsWithin (err []) default_policy_file with_uploads uploads true uploads_added

abbrev no_policy : Disk
no_policy = record { file = none; staged = false }

policy_created :
    (run_policy policy_json true true (λ stage. false) (err []) init no_policy).0.file
    ≡ some (codes "policy")
unfolding run_policy load_policy_with_revision read_optional_policy save_policy_if_unchanged
    option_eq write_owner_only_atomic
policy_created = refl

run_policy-Written_example :
    Written policy_json init no_policy
      (run_policy policy_json true true (λ stage. false) (err []) init no_policy)
run_policy-Written_example =
    run_policy-Written policy_json true true (λ stage. false) (err []) init no_policy
