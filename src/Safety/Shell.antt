-- ===== src/Safety/Shell.antt =====
-- The words at command position (src/safety.rs): quotes, separators, assignments and prefixes.
pub mod Positions
pub mod Quotes
use sshw.Base.{
  ℕ, Bool, true, false, ◌||◌, ◌&&◌, Text, codes, List, [], ◌∷◌, ◌++◌, Option, none, some,
  if◌then◌else◌, ◌==◌, same, text_eq, any, all, is_empty, is_whitespace, is_ascii_alphabetic,
  is_ascii_alphanumeric, last_part, is_path_separator, split_once,
}

pub data ShellToken : Type 0 where
  word : Text → ShellToken
  separator : ShellToken

unfoldable pub is_shell_separator : ℕ → Bool
is_shell_separator c = c == b'&' || c == b'|' || c == b';' || c == b'(' || c == b')'

unfoldable pub is_quote : ℕ → Bool
is_quote c = c == b'\'' || c == b'"'

-- The arms of the `match` on a character outside quotes.
pub data CharClass : Type 0 where
  opens_quote separates blank plain : CharClass

unfoldable pub char_class : ℕ → CharClass
unfolding is_quote is_shell_separator
char_class c =
    if is_quote c
    then opens_quote
    else if is_shell_separator c
    then separates
    else if is_whitespace c
    then blank
    else plain

-- The word that ends, if there is one, and the tokens behind it.
unfoldable pub push_shell_word : Text → List ShellToken → List ShellToken
push_shell_word current rest = if is_empty current then rest else word current ∷ rest

-- The loop: the unread text, the open quote, and the current word.
unfoldable pub scan_words : Text → Option ℕ → Text → List ShellToken
scan_words [] quote current = push_shell_word current []
scan_words (c ∷ s) (some quoted_by) current =
    scan_words s (if c == quoted_by then none else some quoted_by)
      (if c == quoted_by then current else current ++ c ∷ [])
scan_words (c ∷ s) none current = elim (char_class c) [
  | opens_quote ↦ scan_words s (some c) current
  | separates ↦ push_shell_word current (separator ∷ scan_words s none [])
  | blank ↦ push_shell_word current (scan_words s none [])
  | plain ↦ scan_words s none (current ++ c ∷ [])
]

unfoldable pub shellish_words_and_separators : Text → List ShellToken
shellish_words_and_separators command = scan_words command none []

-- `NAME=value`
is_name_start : Text → Bool
is_name_start [] = false
is_name_start (first ∷ rest) =
    (first == b'_' || is_ascii_alphabetic first)
    && all (λ c. c == b'_' || is_ascii_alphanumeric c) rest

unfoldable pub is_assignment_prefix : Text → Bool
unfolding is_name_start
is_assignment_prefix token = elim (split_once b'=' token) [
  | none ↦ false
  | some (name, value) ↦ is_name_start name
]

unfoldable pub is_command_prefix_word : Text → Bool
is_command_prefix_word token =
    same token (codes "command")
    || same token (codes "env")
    || same token (codes "exec")
    || same token (codes "nohup")
    || same token (codes "time")

-- The loop of `command_position_words`, with `at_command_position`.
unfoldable pub position_words : List ShellToken → Bool → List Text
position_words [] at_position = []
position_words (separator ∷ tokens) at_position = position_words tokens true
position_words (word w ∷ tokens) false = position_words tokens false
position_words (word w ∷ tokens) true =
    let skipped = position_words tokens true in
    let taken = w ∷ position_words tokens false in
    if is_assignment_prefix w || is_command_prefix_word w then skipped else taken

unfoldable pub command_position_words : Text → List Text
command_position_words command = position_words (shellish_words_and_separators command) true

unfoldable pub command_name_is : Text → Text → Bool
command_name_is token expected = same (last_part is_path_separator token) expected

unfoldable pub has_sudo_command : Text → Bool
has_sudo_command command =
    any (λ w. command_name_is w (codes "sudo")) (command_position_words command)

first_word : List Text → Option Text
first_word [] = none
first_word (w ∷ ws) = some (last_part is_path_separator w)

-- The program that the audit log records.
unfoldable pub command_program : Text → Option Text
unfolding first_word
command_program command = first_word (command_position_words command)
