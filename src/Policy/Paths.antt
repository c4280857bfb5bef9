-- ===== src/Policy/Paths.antt =====
-- Path rules (src/policy.rs): lexical containment, `..` segments, Windows paths.
pub mod Containment
pub mod Traversal
use sshw.Base.{
  Bool, true, false, not, ◌&&◌, ◌||◌, Text, codes, List, [], ◌∷◌, Option, none, some, same, text_eq,
  ◌==◌, if◌then◌else◌, any, find_map, split, strip_prefix, starts_with, trim, trim_end_matches,
  replace_char, is_empty, is_some, is_ascii_alphabetic, is_path_separator,
}

-- `path` equals `allowed` or is a child of it.
unfoldable pub path_within : Text → Text → Bool
path_within allowed path = same path allowed || (elim (strip_prefix allowed path) [
  | none ↦ false
  | some rest ↦ starts_with (codes "/") rest
])

abbrev pub dotdot : Text
dotdot = codes ".."

unfoldable pub has_parent_traversal : Text → Bool
has_parent_traversal path = any (λ segment. same segment dotdot) (split is_path_separator path)

-- A drive letter, a colon and a separator.
unfoldable pub is_drive_absolute : Text → Bool
unfolding is_path_separator is_ascii_alphabetic
is_drive_absolute (a ∷ b ∷ c ∷ s) = is_ascii_alphabetic a && b == b':' && is_path_separator c
is_drive_absolute s = false

unfoldable pub is_windows_absolute_path : Text → Bool
unfolding is_drive_absolute starts_with
is_windows_absolute_path path = starts_with (codes "\\\\") path || is_drive_absolute path

abbrev pub trim_end_slashes : Text → Text
trim_end_slashes = trim_end_matches (λ c. c == b'/')

abbrev pub to_forward_slashes : Text → Text
to_forward_slashes = replace_char b'\\' b'/'

-- Whether a Windows rule, its trailing slashes gone, contains the Windows form of the path.
windows_within : Text → Option Text → Bool
windows_within rule none = false
windows_within rule (some path) =
    let normalized = trim_end_slashes (to_forward_slashes rule) in
    not (is_empty normalized) && path_within normalized path

-- The closure of `path_match`: the rule, if it admits the path.
unfoldable pub rule_match : Option Text → Text → Text → Option Text
unfolding windows_within
rule_match windows_path path allowed =
    let windows_rule = is_windows_absolute_path (trim allowed) in
    let rule = trim_end_slashes (trim allowed) in
    if is_empty rule
    then none
    else if (if windows_rule then windows_within rule windows_path else path_within rule path)
    then some rule
    else none

abbrev pub windows_form : Text → Option Text
windows_form path = if is_windows_absolute_path path then some (to_forward_slashes path) else none

unfoldable pub path_match : List Text → Text → Option Text
path_match allowlist path =
    if has_parent_traversal path
    then none
    else find_map (rule_match (windows_form path) path) allowlist

unfoldable pub path_is_allowed : List Text → Text → Bool
path_is_allowed allowlist path = is_some (path_match allowlist path)
