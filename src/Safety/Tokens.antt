-- ===== src/Safety/Tokens.antt =====
-- The coarse tokens of a command and the searches in them (src/safety.rs).
use sshw.Base.{
  ℕ, Bool, false, not, ◌||◌, ◌&&◌, Text, codes, List, [], ◌∷◌, none, some, if◌then◌else◌, ◌==◌,
  same, text_eq, any, map, filter, is_empty, starts_with, strip_prefix, split_whitespace,
  trim_matches,
}
use sshw.Policy.Paths.{path_within}
use sshw.Safety.Shell.{is_shell_separator, is_quote, command_name_is}

-- A redirection stands alone, and a separator is a blank.
unfoldable pub normalize : Text → Text
unfolding is_shell_separator
normalize [] = []
normalize (c ∷ s) =
    let rest = normalize s in
    if c == b'>'
    then b' ' ∷ b'>' ∷ b' ' ∷ rest
    else if is_shell_separator c
    then b' ' ∷ rest
    else c ∷ rest

unfoldable pub shellish_tokens : Text → List Text
unfolding normalize filter is_empty
shellish_tokens command =
    filter (λ token. not (is_empty token))
      (map (trim_matches is_quote) (split_whitespace (normalize command)))

-- `enumerate().any` with the tokens behind the index.
unfoldable pub any_with_rest : (Text → List Text → Bool) → List Text → Bool
any_with_rest f [] = false
any_with_rest f (token ∷ rest) = f token rest || any_with_rest f rest

unfoldable pub has_short_flag : Text → ℕ → Bool
unfolding starts_with
has_short_flag [] flag = false
has_short_flag (c ∷ s) flag =
    c == b'-' && (not (starts_with (codes "-") s) && any (λ d. d == flag) s)

unfoldable pub is_recursive_flag : Text → Bool
is_recursive_flag arg =
    has_short_flag arg b'r' || has_short_flag arg b'R' || same arg (codes "--recursive")

unfoldable pub is_force_flag : Text → Bool
is_force_flag arg = has_short_flag arg b'f' || same arg (codes "--force")

-- The inner loop over the arguments, with its two flags.
unfoldable pub rm_flags : List Text → Bool → Bool → Bool
rm_flags [] recursive force = recursive && force
rm_flags (arg ∷ args) recursive force =
    let dashed = starts_with (codes "-") arg in
    rm_flags args (if dashed then recursive || is_recursive_flag arg else recursive)
      (if dashed then force || is_force_flag arg else force)

unfoldable pub has_rm_recursive_force : List Text → Bool
has_rm_recursive_force =
    any_with_rest (λ token rest. command_name_is token (codes "rm") && rm_flags rest false false)

unfoldable pub has_recursive_command : List Text → Text → Bool
has_recursive_command tokens command =
    any_with_rest (λ token rest. command_name_is token command && any is_recursive_flag rest) tokens

adjacent : Text → Text → Text → List Text → Bool
adjacent first second token [] = false
adjacent first second token (next ∷ rest) = command_name_is token first && same next second

unfoldable pub has_adjacent_tokens : List Text → Text → Text → Bool
unfolding adjacent
has_adjacent_tokens tokens first second = any_with_rest (adjacent first second) tokens

unfoldable pub is_etc_path : Text → Bool
is_etc_path path = path_within (codes "/etc") path

unfoldable pub command_targets_etc : List Text → Text → Bool
command_targets_etc tokens command =
    any_with_rest (λ token rest. command_name_is token command && any is_etc_path rest) tokens

of_is_etc : Text → Bool
of_is_etc arg = elim (strip_prefix (codes "of=") arg) [
  | none ↦ false
  | some path ↦ is_etc_path path
]

unfoldable pub dd_writes_to_etc : List Text → Bool
unfolding of_is_etc
dd_writes_to_etc tokens =
    any_with_rest (λ token rest. command_name_is token (codes "dd") && any of_is_etc rest) tokens

-- `windows(2)` and `windows(3)`
redirect_then_etc : Text → List Text → Bool
redirect_then_etc token [] = false
redirect_then_etc token (next ∷ rest) = same token (codes ">") && is_etc_path next

append_then_etc : Text → List Text → Bool
append_then_etc token [] = false
append_then_etc token (next ∷ []) = false
append_then_etc token (next ∷ last ∷ rest) =
    same token (codes ">") && (same next (codes ">") && is_etc_path last)

unfoldable pub writes_to_etc : Text → Bool
unfolding redirect_then_etc append_then_etc
writes_to_etc command =
    let tokens = shellish_tokens command in
    any_with_rest redirect_then_etc tokens
    || any_with_rest append_then_etc tokens
    || command_targets_etc tokens (codes "tee")
    || command_targets_etc tokens (codes "cp")
    || command_targets_etc tokens (codes "mv")
    || command_targets_etc tokens (codes "install")
    || dd_writes_to_etc tokens
