-- ===== src/Policy/Explain.antt =====
-- Policy decisions with their reasons (src/policy.rs).
use sshw.Base.{Bool, true, false, Text, List, ◌∷◌, ◌++◌, Option, none, some, if◌then◌else◌, trim}
use sshw.Policy.{AccountRule, PolicyRules, Policy, disabled, enabled}
use sshw.Policy.Paths.{has_parent_traversal, path_match}
use sshw.Policy.Commands.{
  MatchType, by_path, by_account, contains_shell_metacharacters, command_match, account_match,
}

-- The strings in `reason`.
pub data Reason : Type 0 where
  policy_disabled matched_rule exact_command_required no_matching_rule parent_traversal : Reason
  default_account : Reason

pub record PolicyExplanation : Type 0 where
  pub allowed : Bool
  pub reason : Reason
  pub rule : Option Text
  pub match_type : Option MatchType

unfoldable pub decision : Bool → Reason → PolicyExplanation
decision allowed reason = record {
  allowed = allowed;
  reason = reason;
  rule = none;
  match_type = none;
}

unfoldable pub matched : Text → MatchType → PolicyExplanation
unfolding decision
matched rule kind = record (decision true matched_rule) { rule = some rule; match_type = some kind }

explain_rules_command : PolicyRules → Text → PolicyExplanation
explain_rules_command rules command = elim (command_match rules command) [
  | some (rule, kind) ↦ matched rule kind
  | none ↦ decision false (
      if contains_shell_metacharacters (trim command)
      then exact_command_required
      else no_matching_rule)
]

unfoldable pub explain_command : Policy → Text → PolicyExplanation
unfolding explain_rules_command decision matched
explain_command disabled command = decision true policy_disabled
explain_command (enabled rules) command = explain_rules_command rules command

explain_rules_path : List Text → Text → PolicyExplanation
explain_rules_path entries path = elim (path_match entries path) [
  | some rule ↦ matched rule by_path
  | none ↦ decision false (if has_parent_traversal path then parent_traversal else no_matching_rule)
]

unfoldable pub explain_path : Policy → Text → Bool → PolicyExplanation
unfolding explain_rules_path decision matched
explain_path disabled path upload = decision true policy_disabled
explain_path (enabled rules) path upload =
    explain_rules_path (if upload then rules.allow_put_paths else rules.allow_get_paths) path

abbrev account_label : AccountRule → Text
account_label entry = entry.server ++ b'/' ∷ entry.user

explain_rules_account : PolicyRules → Text → Text → PolicyExplanation
explain_rules_account rules server user = elim (account_match rules server user) [
  | some entry ↦ matched (account_label entry) by_account
  | none ↦ decision false no_matching_rule
]

unfoldable pub explain_account : Policy → Text → Text → Bool → PolicyExplanation
unfolding explain_rules_account decision matched
explain_account disabled server user is_default = decision true policy_disabled
explain_account (enabled rules) server user is_default =
    if is_default then decision true default_account else explain_rules_account rules server user
