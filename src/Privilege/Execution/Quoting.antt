-- ===== src/Privilege/Execution/Quoting.antt =====
-- What the remote shell makes of a quoted command line (src/cli.rs, `shell_quote`, `sudo_command`
-- and `su_command`).
use sshw.Base.{
  ℕ, Bool, ◌||◌, Text, codes, List, [], ◌∷◌, ◌++◌, Option, none, some, if◌then◌else◌, ◌==◌, ◌≡◌,
  refl, sym, ap, ◌∙◌, arith, Bool-cases, inl, inr, push_front, append_assoc, append-nil, map,
}
use sshw.Privilege.Execution.{
  escape_quotes, shell_quote, sudo_validation, sudo_check, sudo_script, sudo_command, su_script,
  su_command,
}

-- Where a shell stands in a line: outside quotes, or in one of the two kinds.
pub data Quotes : Type 0 where
  bare single double : Quotes

-- Characters that a shell does not read as themselves outside quotes.
abbrev is_special : ℕ → Bool
is_special c =
    c == b';'
    || c == b'&'
    || c == b'|'
    || c == b'<'
    || c == b'>'
    || c == b'('
    || c == b')'
    || c == b'$'
    || c == b'`'
    || c == b'\\'
    || c == b'*'
    || c == b'?'
    || c == b'['
    || c == b'#'
    || c == b'~'
    || c == b'\n'
    || c == b'\t'

-- Characters that keep their meaning inside double quotes.
abbrev is_expanded : ℕ → Bool
is_expanded c = c == b'$' || c == b'`' || c == b'\\'

abbrev prepend : ℕ → Option (List Text) → Option (List Text)
prepend c none = none
prepend c (some words) = some (push_front c words)

abbrev next_word : Option (List Text) → Option (List Text)
next_word none = none
next_word (some words) = some ([] ∷ words)

-- The words of a simple command whose words one space parts, as a POSIX shell reads them; nothing
-- if it is no such command: if it has an operator, an expansion, or an open quote.
abbrev pub sh_words : Quotes → Text → Option (List Text)
sh_words bare [] = some ([] ∷ [])
sh_words single [] = none
sh_words double [] = none
sh_words bare (c ∷ s) =
    let in_single = sh_words single s in
    let in_double = sh_words double s in
    let rest = sh_words bare s in
    if c == b'\''
    then in_single
    else if c == b'"'
    then in_double
    else if c == b' '
    then next_word rest
    else if is_special c
    then none
    else prepend c rest
sh_words single (c ∷ s) =
    let closed = sh_words bare s in
    let rest = sh_words single s in if c == b'\'' then closed else prepend c rest
sh_words double (c ∷ s) =
    let closed = sh_words bare s in
    let rest = sh_words double s in
    if c == b'"' then closed else if is_expanded c then none else prepend c rest

-- The characters of a text, in front of the first word.
abbrev prepend_all : Text → Option (List Text) → Option (List Text)
prepend_all [] words = words
prepend_all (c ∷ s) words = prepend c (prepend_all s words)

-- Quoted text ends where it was quoted, and reads as itself.
sh_words-escape_quotes :
    (value rest : Text)
    → sh_words single (escape_quotes value ++ b'\'' ∷ rest) ≡ prepend_all value (sh_words bare rest)
unfolding escape_quotes
sh_words-escape_quotes [] rest = refl
sh_words-escape_quotes (c ∷ value) rest = elim (Bool-cases (c == b'\'')) [
  | inl e ↦ ground (arith, sh_words-escape_quotes value rest)
  | inr e ↦ ground (arith, sh_words-escape_quotes value rest)
]

sh_words-shell_quote :
    (value rest : Text)
    → sh_words bare (shell_quote value ++ rest) ≡ prepend_all value (sh_words bare rest)
unfolding shell_quote
sh_words-shell_quote value rest =
    ap (sh_words single) (append_assoc (escape_quotes value) (b'\'' ∷ []) rest)
    ∙ sh_words-escape_quotes value rest

prepend_all-word :
    (value word : Text) (words : List Text)
    → prepend_all value (some (word ∷ words)) ≡ some ((value ++ word) ∷ words)
prepend_all-word [] word words = refl
prepend_all-word (c ∷ value) word words = ap (prepend c) (prepend_all-word value word words)

sh_words_of_quote :
    (value : Text) (rest word : Text) (words : List Text)
    → sh_words bare rest ≡ some (word ∷ words)
    → sh_words bare (shell_quote value ++ rest) ≡ some ((value ++ word) ∷ words)
sh_words_of_quote value rest word words h =
    sh_words-shell_quote value rest ∙ ap (prepend_all value) h ∙ prepend_all-word value word words

sh_words_of_last : (value : Text) → sh_words bare (shell_quote value) ≡ some (value ∷ [])
sh_words_of_last value =
    ap (sh_words bare) (sym (append-nil (shell_quote value)))
    ∙ sh_words_of_quote value [] [] [] refl
    ∙ ap (λ word. some (word ∷ [])) (append-nil value)

-- Words in front of words that are read.
abbrev under : List Text → Option (List Text) → Option (List Text)
under words none = none
under words (some more) = some (words ++ more)

-- The remote shell reads the command line of `su` as one command: neither the account nor the
-- command can leave its quotes, whatever they hold.
pub su_command-words :
    (command user marker_nonce : Text)
    → sh_words bare (su_command command user marker_nonce)
      ≡ some (
          codes "LC_ALL=C"
          ∷ codes "su"
          ∷ codes "-"
          ∷ user
          ∷ codes "-c"
          ∷ su_script command marker_nonce
          ∷ [])
unfolding su_command
su_command-words command user marker_nonce = ground (
  arith,
  sh_words_of_quote user (codes " -c " ++ shell_quote (su_script command marker_nonce)) []
      (codes "-c" ∷ su_script command marker_nonce ∷ [])
      (ground (arith, sh_words_of_last (su_script command marker_nonce))),
  append-nil user,
)

-- The remote shell reads the command line of `sudo` as a script for another shell.
pub sudo_command-words :
    (command user : Text)
    → sh_words bare (sudo_command command user)
      ≡ some (codes "sh" ∷ codes "-c" ∷ sudo_script command user ∷ [])
unfolding sudo_command
sudo_command-words command user = ground (arith, sh_words_of_last (sudo_script command user))

-- A character of a script that a shell reads as itself, or one that it acts on.
pub data Mark : Type 0 where
  literal active : ℕ → Mark

-- What quotes do to a script: the quotes go, and what they hold is literal, but for expansions
-- inside double quotes.
abbrev pub marks : Quotes → Text → List Mark
marks quotes [] = []
marks bare (c ∷ s) =
    let in_single = marks single s in
    let in_double = marks double s in
    let rest = marks bare s in
    if c == b'\'' then in_single else if c == b'"' then in_double else active c ∷ rest
marks single (c ∷ s) =
    let closed = marks bare s in
    let rest = marks single s in if c == b'\'' then closed else literal c ∷ rest
marks double (c ∷ s) =
    let closed = marks bare s in
    let rest = marks double s in
    if c == b'"' then closed else if is_expanded c then active c ∷ rest else literal c ∷ rest

marks-escape_quotes :
    (value rest : Text)
    → marks single (escape_quotes value ++ b'\'' ∷ rest) ≡ map literal value ++ marks bare rest
unfolding escape_quotes
marks-escape_quotes [] rest = refl
marks-escape_quotes (c ∷ value) rest = elim (Bool-cases (c == b'\'')) [
  | inl e ↦ ground (arith, marks-escape_quotes value rest)
  | inr e ↦ ground (arith, marks-escape_quotes value rest)
]

marks-shell_quote :
    (value rest : Text)
    → marks bare (shell_quote value ++ rest) ≡ map literal value ++ marks bare rest
unfolding shell_quote
marks-shell_quote value rest =
    ap (marks single) (append_assoc (escape_quotes value) (b'\'' ∷ []) rest)
    ∙ marks-escape_quotes value rest

-- Quoted text in front of text whose marks are known.
marks_of_quote :
    (value rest : Text) (rest_marks : List Mark)
    → marks bare rest ≡ rest_marks
    → marks bare (shell_quote value ++ rest) ≡ map literal value ++ rest_marks
marks_of_quote value rest rest_marks h =
    marks-shell_quote value rest ∙ ap (λ t. map literal value ++ t) h

-- Every character of the account and of the command is literal to the shell that runs the `sudo`
-- script; what it acts on is the fixed text around them.
pub sudo_script-marks :
    (command user : Text)
    → marks bare (sudo_script command user)
      ≡ marks bare sudo_validation
        ++ (map literal user
            ++ (marks bare sudo_check
                ++ (map literal user
                    ++ (marks bare (codes " -- sh -lc ")
                        ++ (map literal command ++ marks bare (codes " < /dev/null"))))))
unfolding sudo_script
sudo_script-marks command user =
    ap (λ t. marks bare sudo_validation ++ t)
      (marks_of_quote user _ _ (
        ap (λ t. marks bare sudo_check ++ t)
          (marks_of_quote user _ _ (
            ap (λ t. marks bare (codes " -- sh -lc ") ++ t)
              (marks_of_quote command (codes " < /dev/null") _ refl)))))
