-- ===== src/Safety/Shell/Positions.antt =====
-- Which words stand at command position, and that a program run as `sudo` is found there.
use sshw.Base.{
  ℕ, Bool, true, false, Bool-cases, ◌||◌, Text, codes, List, [], ◌∷◌, ◌++◌, append_assoc,
  append-nil, Option, none, some, ◌≡◌, inl, inr, refl, ◌∙◌, arith, if◌then◌else◌, ◌==◌, text_eq,
  any, any-append, AllOf, is_empty, last_part, is_path_separator,
}
use sshw.Safety.Shell.{
  ShellToken, word, separator, is_quote, CharClass, opens_quote, separates, blank, plain,
  char_class, push_shell_word, scan_words, shellish_words_and_separators, is_assignment_prefix,
  is_command_prefix_word, position_words, command_position_words, command_name_is, has_sudo_command,
}

abbrev is_skipped : Text → Bool
is_skipped w = is_assignment_prefix w || is_command_prefix_word w

position_words-IsSkipped :
    (tokens : List ShellToken) (at_position : Bool)
    → AllOf (λ w. is_skipped w ≡ false) (position_words tokens at_position)
unfolding position_words
position_words-IsSkipped [] at_position = tt
position_words-IsSkipped (separator ∷ tokens) at_position = position_words-IsSkipped tokens true
position_words-IsSkipped (word w ∷ tokens) false = position_words-IsSkipped tokens false
position_words-IsSkipped (word w ∷ tokens) true = elim (Bool-cases (is_skipped w)) [
  | inl e ↦ rw e (position_words-IsSkipped tokens true)
  | inr e ↦ rw e (e, position_words-IsSkipped tokens false)
]

-- No word that is taken for a command is an assignment or a prefix word, in any command text.
pub command_position_words-IsSkipped :
    (command : Text)
    → AllOf
        (λ w. (is_assignment_prefix w || is_command_prefix_word w) ≡ false)
        (command_position_words command)
unfolding command_position_words
command_position_words-IsSkipped command =
    position_words-IsSkipped (shellish_words_and_separators command) true

-- A separator starts over.
position_words_at_separator :
    (tokens more : List ShellToken) (at_position : Bool)
    → position_words (tokens ++ separator ∷ more) at_position
      ≡ position_words tokens at_position ++ position_words more true
unfolding position_words
position_words_at_separator [] more at_position = refl
position_words_at_separator (separator ∷ tokens) more at_position =
    position_words_at_separator tokens more true
position_words_at_separator (word w ∷ tokens) more false =
    position_words_at_separator tokens more false
position_words_at_separator (word w ∷ tokens) more true = ground (
  arith,
  position_words_at_separator tokens more true,
  position_words_at_separator tokens more false,
)

-- The quote that is open behind a text.
abbrev pub open_quote : Text → Option ℕ → Option ℕ
open_quote [] quote = quote
open_quote (c ∷ s) (some quoted_by) = open_quote s (if c == quoted_by then none else some quoted_by)
open_quote (c ∷ s) none = open_quote s (if is_quote c then some c else none)

push_shell_word-append :
    (current : Text) (tokens more : List ShellToken)
    → push_shell_word current (tokens ++ more) ≡ push_shell_word current tokens ++ more
unfolding push_shell_word
push_shell_word-append current tokens more = ground arith

abbrev pub is_opening : CharClass → Bool
is_opening opens_quote = true
is_opening _ = false

pub is_quote-char_class : (c : ℕ) → is_quote c ≡ is_opening (char_class c)
unfolding char_class
is_quote-char_class c = ground arith

-- The tokens up to a separator that stands outside quotes.
scan_words_at_separator :
    (before s : Text) (c : ℕ) (quote : Option ℕ) (current : Text)
    → open_quote before quote ≡ none
    → char_class c ≡ separates
    → (tokens : List ShellToken) × (scan_words (before ++ c ∷ s) quote current
        ≡ tokens ++ separator ∷ scan_words s none [])
unfolding scan_words
scan_words_at_separator [] s c none current h k =
    (push_shell_word current [], rw (k, scan_words) (push_shell_word-append current [] _))
scan_words_at_separator [] s c (some q) current h k = absurd (cc h)
scan_words_at_separator (d ∷ before) s c (some q) current h k =
    scan_words_at_separator before s c _ _ h k
scan_words_at_separator (d ∷ before) s c none current h k =
    go (char_class d) refl (scan_words_at_separator before s c)
  where
    go :
        (class : CharClass)
        → char_class d ≡ class
        → ((quote : Option ℕ) (current' : Text)
            → open_quote before quote ≡ none
            → char_class c ≡ separates
            → (tokens : List ShellToken) × (scan_words (before ++ c ∷ s) quote current'
                ≡ tokens ++ separator ∷ scan_words s none []))
        → (tokens : List ShellToken) × (scan_words (d ∷ before ++ c ∷ s) none current
            ≡ tokens ++ separator ∷ scan_words s none [])
    go opens_quote e ih =
        let (tokens, q) = ih (some d) current (ground (arith, is_quote-char_class d)) k in
        (tokens, rw (e, scan_words) q)
    go separates e ih =
        let (tokens, q) = ih none [] (ground (arith, is_quote-char_class d)) k in
        (
          push_shell_word current (separator ∷ tokens),
          rw (e, scan_words, q) (push_shell_word-append current (separator ∷ tokens) _),
        )
    go blank e ih =
        let (tokens, q) = ih none [] (ground (arith, is_quote-char_class d)) k in
        (
          push_shell_word current tokens,
          rw (e, scan_words, q) (push_shell_word-append current tokens _),
        )
    go plain e ih =
        let (tokens, q) = ih none (current ++ d ∷ []) (ground (arith, is_quote-char_class d)) k in
        (tokens, rw (e, scan_words) q)

-- Nothing before a separator outside quotes hides a `sudo` behind it.
has_sudo_at_separator :
    (before s : Text) (c : ℕ)
    → open_quote before none ≡ none
    → char_class c ≡ separates
    → has_sudo_command s ≡ true
    → has_sudo_command (before ++ c ∷ s) ≡ true
unfolding has_sudo_command command_position_words shellish_words_and_separators
has_sudo_at_separator before s c h k sudo =
    let (tokens, q) = scan_words_at_separator before s c none [] h k in
    rw (q, position_words_at_separator, any-append) (ground (arith, sudo))

-- A word of plain characters, read to its end.
pub scan_words-plain :
    (w s current : Text)
    → AllOf (λ c. char_class c ≡ plain) w
    → scan_words (w ++ s) none current ≡ scan_words s none (current ++ w)
unfolding scan_words
scan_words-plain [] s current h = rw append-nil
scan_words-plain (c ∷ w) s current (hc, h) =
    rw (hc, scan_words, scan_words-plain w s _ h, append_assoc)

scan_words_word :
    (c : ℕ) (w s : Text) (b : ℕ)
    → AllOf (λ d. char_class d ≡ plain) (c ∷ w)
    → char_class b ≡ blank
    → scan_words (c ∷ w ++ b ∷ s) none [] ≡ word (c ∷ w) ∷ scan_words s none []
unfolding scan_words push_shell_word is_empty
scan_words_word c w s b h k = scan_words-plain (c ∷ w) (b ∷ s) [] h ∙ rw (k, scan_words)

-- A command text in which `sudo` runs: first, behind skipped words, or behind a separator that
-- stands outside quotes. A path in front of the program's name does not matter.
pub data RunsSudo : Text → Type 0 where
  first :
      (s : Text) (c : ℕ) (w rest : Text) (b : ℕ)
      → AllOf (λ d. char_class d ≡ plain) (c ∷ w)
      → (is_assignment_prefix (c ∷ w) || is_command_prefix_word (c ∷ w)) ≡ false
      → last_part is_path_separator (c ∷ w) ≡ codes "sudo"
      → char_class b ≡ blank
      → s ≡ c ∷ w ++ b ∷ rest
      → RunsSudo s
  behind_word :
      (s : Text) (c : ℕ) (w rest : Text) (b : ℕ)
      → AllOf (λ d. char_class d ≡ plain) (c ∷ w)
      → (is_assignment_prefix (c ∷ w) || is_command_prefix_word (c ∷ w)) ≡ true
      → char_class b ≡ blank
      → s ≡ c ∷ w ++ b ∷ rest
      → RunsSudo rest
      → RunsSudo s
  behind_separator :
      (s before rest : Text) (c : ℕ)
      → open_quote before none ≡ none
      → char_class c ≡ separates
      → s ≡ before ++ c ∷ rest
      → RunsSudo rest
      → RunsSudo s

-- `sudo` is found wherever it runs in this sense.
pub has_sudo_command-RunsSudo : (s : Text) → RunsSudo s → has_sudo_command s ≡ true
unfolding has_sudo_command command_position_words shellish_words_and_separators position_words
    command_name_is any
has_sudo_command-RunsSudo _ (first s c w rest b h k p q e) =
    rw (e, scan_words_word c w rest b h q) (ground arith)
has_sudo_command-RunsSudo _ (behind_word s c w rest b h k q e r) =
    rw (e, scan_words_word c w rest b h q) (ground (arith, has_sudo_command-RunsSudo rest r))
has_sudo_command-RunsSudo _ (behind_separator s before rest c h k e r) =
    rw e (has_sudo_at_separator before rest c h k (has_sudo_command-RunsSudo rest r))
