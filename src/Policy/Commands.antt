-- ===== src/Policy/Commands.antt =====
-- Command rules (src/policy.rs): exact entries, globs and program names.
pub mod Permits
use sshw.Base.{
  ℕ, Bool, true, false, ◌||◌, Text, codes, List, [], ◌∷◌, Option, none, some, same, text_eq, ◌==◌,
  if◌then◌else◌, any, find_map, find, split_whitespace, strip_suffix_char, starts_with, trim,
  last_part, is_empty, is_some, is_whitespace, is_path_separator, ◌&&◌,
}
use sshw.Policy.{AccountRule, PolicyRules}
use sshw.Policy.Paths.{path_is_allowed}

-- The strings "exact", "prefix", "program", "path" and "account" of the source.
pub data MatchType : Type 0 where
  exact by_prefix by_program by_path by_account : MatchType

unfoldable pub is_shell_metacharacter : ℕ → Bool
is_shell_metacharacter c =
    c == b';'
    || c == b'&'
    || c == b'|'
    || c == b'`'
    || c == b'$'
    || c == b'('
    || c == b')'
    || c == b'<'
    || c == b'>'
    || c == b'\n'
    || c == b'\r'

unfoldable pub contains_shell_metacharacters : Text → Bool
contains_shell_metacharacters = any is_shell_metacharacter

-- A bare program name against the basename of the first word.
matches_program : Text → List Text → Option MatchType
matches_program entry [] = none
matches_program entry (program ∷ words) =
    if same (last_part is_path_separator program) entry then some by_program else none

matches_glob : Text → Text → Option MatchType
matches_glob prefix command =
    if is_empty (trim prefix)
    then none
    else if starts_with prefix command
    then some by_prefix
    else none

unfoldable pub command_matches_simple : Text → Text → Option MatchType
unfolding matches_program matches_glob
command_matches_simple entry command = elim (strip_suffix_char b'*' entry) [
  | some prefix ↦ matches_glob prefix command
  | none ↦
      if any is_whitespace entry then none else matches_program entry (split_whitespace command)
]

abbrev or_exact : Option MatchType → MatchType
or_exact none = exact
or_exact (some kind) = kind

-- The closure of `command_match`, at a trimmed command.
unfoldable pub entry_match : Text → Text → Option (Text × MatchType)
entry_match command raw =
    let entry = trim raw in
    let has_meta = contains_shell_metacharacters command in
    if is_empty entry
    then none
    else if same entry command
    then some (entry, if has_meta then exact else or_exact (command_matches_simple entry command))
    else if has_meta
    then none
    else elim (command_matches_simple entry command) [
      | none ↦ none
      | some kind ↦ some (entry, kind)
    ]

unfoldable pub command_match : PolicyRules → Text → Option (Text × MatchType)
command_match rules command = find_map (entry_match (trim command)) rules.allow_commands

unfoldable pub allows_command : PolicyRules → Text → Bool
unfolding command_match
allows_command rules command = is_some (command_match rules command)

unfoldable pub allows_put : PolicyRules → Text → Bool
allows_put rules remote_path = path_is_allowed rules.allow_put_paths remote_path

unfoldable pub allows_get : PolicyRules → Text → Bool
allows_get rules remote_path = path_is_allowed rules.allow_get_paths remote_path

unfoldable pub account_match : PolicyRules → Text → Text → Option AccountRule
account_match rules server user =
    find (λ entry. same entry.server server && same entry.user user) rules.allow_accounts

unfoldable pub allows_account : PolicyRules → Text → Text → Bool → Bool
unfolding account_match
allows_account rules server user is_default =
    is_default || is_some (account_match rules server user)
