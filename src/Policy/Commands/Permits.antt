-- ===== src/Policy/Commands/Permits.antt =====
-- What the command rules admit, stated without the code's search.
use sshw.Base.{
  true, false, Bool-cases, Option-cases, List-cases, Text, List, [], ◌∷◌, ◌++◌, none, some, ◌≡◌,
  ◌↔◌, inl, inr, arith, same, text_eq, any, find_map, Member, find_map-eq-some, find_map-eq-none,
  split_whitespace, strip_suffix_char, strip_suffix_char-append, strip_suffix_char-eq-some,
  starts_with-append, starts_with-eq-true, trim, last_part, is_empty, is_some, is_whitespace,
  is_path_separator,
}
use sshw.Policy.{PolicyRules}
use sshw.Policy.Commands.{
  MatchType, contains_shell_metacharacters, command_matches_simple, entry_match, allows_command,
}

-- How an entry can admit a command, both trimmed. Only the first way admits shell metacharacters.
pub data Permits (entry command : Text) : Type 0 where
  spelled : entry ≡ command → Permits entry command
  glob :
      (prefix rest : Text)
      → contains_shell_metacharacters command ≡ false
      → entry ≡ prefix ++ b'*' ∷ []
      → is_empty (trim prefix) ≡ false
      → command ≡ prefix ++ rest
      → Permits entry command
  program :
      (word : Text) (words : List Text)
      → contains_shell_metacharacters command ≡ false
      → strip_suffix_char b'*' entry ≡ none
      → any is_whitespace entry ≡ false
      → split_whitespace command ≡ word ∷ words
      → last_part is_path_separator word ≡ entry
      → Permits entry command

simple-Permits :
    (entry command : Text) (kind : MatchType)
    → contains_shell_metacharacters command ≡ false
    → command_matches_simple entry command ≡ some kind
    → Permits entry command
unfolding command_matches_simple
simple-Permits entry command kind plain h = elim (Option-cases (strip_suffix_char b'*' entry)) [
  | inr (prefix, e) ↦
      let (rest, q) = starts_with-eq-true prefix command (ground arith) in
      glob prefix rest plain (strip_suffix_char-eq-some b'*' entry prefix e) (ground arith) q
  | inl e ↦ elim (List-cases (split_whitespace command)) [
    | inl q ↦ absurd (ground arith)
    | inr (word, words, q) ↦ program word words plain e (ground arith) q (ground arith)
  ]
]

Permits-simple :
    (entry command : Text)
    → contains_shell_metacharacters command ≡ false
    → Permits entry command
    → same entry command ≡ false
    → is_some (command_matches_simple entry command) ≡ true
unfolding command_matches_simple
Permits-simple entry command plain (spelled e) n = absurd (ground arith)
Permits-simple entry command plain (glob prefix rest m e t q) n =
    rw (e, q) (ground (arith, strip_suffix_char-append b'*' prefix, starts_with-append prefix rest))
Permits-simple entry command plain (program word words m s w q l) n = ground arith

plain_of_unspelled :
    (entry command : Text)
    → Permits entry command
    → same entry command ≡ false
    → contains_shell_metacharacters command ≡ false
plain_of_unspelled entry command (spelled e) n = absurd (ground arith)
plain_of_unspelled entry command (glob prefix rest m e t q) n = m
plain_of_unspelled entry command (program word words m s w q l) n = m

entry_match-Permits :
    (command raw : Text) (found : Text × MatchType)
    → entry_match command raw ≡ some found
    → (is_empty (trim raw) ≡ false) × Permits (trim raw) command
unfolding entry_match
entry_match-Permits command raw found h = elim (Bool-cases (same (trim raw) command)) [
  | inl e ↦ (ground arith, spelled (ground arith))
  | inr n ↦ elim (Option-cases (command_matches_simple (trim raw) command)) [
    | inl e ↦ absurd (ground arith)
    | inr (kind, e) ↦ (ground arith, simple-Permits (trim raw) command kind (ground arith) e)
  ]
]

Permits-entry_match :
    (command raw : Text)
    → is_empty (trim raw) ≡ false
    → Permits (trim raw) command
    → is_some (entry_match command raw) ≡ true
unfolding entry_match
Permits-entry_match command raw h p = ground (
  arith,
  plain_of_unspelled (trim raw) command p,
  λ (plain : contains_shell_metacharacters command ≡ false).
      Permits-simple (trim raw) command plain p,
)

-- A command is allowed exactly when some entry of the list, trimmed and not empty, permits the
-- trimmed command.
pub allows_command-Permits :
    (rules : PolicyRules) (command : Text)
    → (allows_command rules command ≡ true) ↔ (
        (raw : Text) × Member raw rules.allow_commands
        × (is_empty (trim raw) ≡ false)
        × Permits (trim raw) (trim command))
unfolding allows_command
allows_command-Permits rules command = (
  λ h. elim (Option-cases (find_map (entry_match (trim command)) rules.allow_commands)) [
    | inl e ↦ absurd (ground arith)
    | inr (found, e) ↦
        let (raw, m, q) = find_map-eq-some _ rules.allow_commands found e in
        let (full, p) = entry_match-Permits (trim command) raw found q in (raw, m, full, p)
  ],
  λ (raw, m, full, p).
      elim (Option-cases (find_map (entry_match (trim command)) rules.allow_commands)) [
        | inl e ↦ absurd (
            ground (
              arith,
              find_map-eq-none _ raw rules.allow_commands e m,
              Permits-entry_match (trim command) raw full p,
            ))
        | inr (found, e) ↦ ground arith
      ],
)

-- With a shell metacharacter in the trimmed command nothing but an entry that spells it allows it.
pub allows_command_of_metacharacter :
    (rules : PolicyRules) (command : Text)
    → contains_shell_metacharacters (trim command) ≡ true
    → allows_command rules command ≡ true
    → (raw : Text) × Member raw rules.allow_commands × (trim raw ≡ trim command)
allows_command_of_metacharacter rules command meta h =
    let (raw, m, full, p) = (allows_command-Permits rules command).0 h in (raw, m, only_spelled p)
  where
    only_spelled : {entry : Text} → Permits entry (trim command) → entry ≡ trim command
    only_spelled (spelled e) = e
    only_spelled (glob prefix rest plain e t q) = absurd (cc (meta, plain))
    only_spelled (program word words plain s w q l) = absurd (cc (meta, plain))
