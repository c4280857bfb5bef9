-- ===== src/Ssh/Framing/RoundTrip.antt =====
-- What a framed command prints, and its status, are read back from the terminal
-- (src/ssh/ssh2_client.rs, `extract_su_output`; the wrapper that prints is `su_command` of
-- src/cli.rs).
use sshw.Base.{
  ℕ, ◌≤◌, ◌<◌, ◌+◌, ◌/◌, ◌%◌, false, Text, codes, [], ◌∷◌, ◌++◌, none, some, inl, inr, length,
  Bool-cases, append_assoc, is_ascii_digit, is_empty, starts_with, ltb, ◌==◌, split_once,
  strip_prefix, strip_prefix-append, if◌then◌else◌, AllOf, subst, ◌≡◌, refl, arith, sym,
  replace_char,
}
use sshw.Errors.{ok}
use sshw.Errors.Classify.{contains_text}
use sshw.Ssh.Framing.{
  su_begin_marker, su_end_prefix, find_text, leading_digits, behind_digits, parse_i32,
  parse_i32_from, behind_newline, normalise_newlines, replace_crlf, completion_status,
  extract_su_output,
}
use sshw.Ssh.Framing.Sound.{find_text_here, find_text_later}

-- A text that is long enough and has no such prefix gets none behind it.
strip_prefix_beyond :
    (needle s more : Text)
    → strip_prefix needle s ≡ none
    → length needle ≤ length s
    → strip_prefix needle (s ++ more) ≡ none
unfolding strip_prefix
strip_prefix_beyond [] s more h le = cc
strip_prefix_beyond (p ∷ needle) [] more h le = absurd (omega arith)
strip_prefix_beyond (p ∷ needle) (c ∷ s) more h le = elim (Bool-cases (p == c)) [
  | inr e ↦ ground arith
  | inl e ↦ ground (arith, strip_prefix_beyond needle s more (ground arith) (ground arith))
]

length-append : (s t : Text) → length (s ++ t) ≡ length s + length t
length-append [] t = omega arith
length-append (c ∷ s) t = ground (arith, length-append s t)

regroup :
    (stem before rest : Text) (c : ℕ)
    → before ++ ((stem ++ c ∷ []) ++ rest) ≡ (before ++ stem) ++ c ∷ rest
regroup stem before rest c =
    rw (append_assoc stem (c ∷ []) rest) (sym (append_assoc before stem (c ∷ rest)))

-- A marker `stem` with one more character `c` is found where it stands, if the text up to it and
-- its stem has none.
find_text_first :
    (stem before rest : Text) (c : ℕ)
    → contains_text (stem ++ c ∷ []) (before ++ stem) ≡ false
    → find_text (stem ++ c ∷ []) (before ++ ((stem ++ c ∷ []) ++ rest)) ≡ some (before, rest)
unfolding contains_text starts_with
find_text_first stem [] rest c h =
    find_text_here (stem ++ c ∷ []) ((stem ++ c ∷ []) ++ rest) rest
      (strip_prefix-append (stem ++ c ∷ []) rest)
find_text_first stem (d ∷ before) rest c h =
    find_text_later (stem ++ c ∷ []) (before ++ ((stem ++ c ∷ []) ++ rest)) before rest d
      (subst (λ s. strip_prefix (stem ++ c ∷ []) s ≡ none) (sym (regroup stem (d ∷ before) rest c))
        (strip_prefix_beyond (stem ++ c ∷ []) ((d ∷ before) ++ stem) (c ∷ rest)
          (ground (arith, strip_prefix (stem ++ c ∷ []) ((d ∷ before) ++ stem)))
          (ground (arith, length-append stem (c ∷ []), length-append (d ∷ before) stem))))
      (find_text_first stem before rest c (ground arith))

-- How a terminal prints a text: each line feed becomes a carriage return and a line feed.
abbrev pub onlcr : Text → Text
onlcr [] = []
onlcr (c ∷ s) = let rest = onlcr s in if c == b'\n' then b'\r' ∷ b'\n' ∷ rest else c ∷ rest

replace_crlf_step :
    (c : ℕ) (s : Text) → (c == b'\r') ≡ false → replace_crlf (c ∷ s) ≡ c ∷ replace_crlf s
unfolding replace_crlf
replace_crlf_step c [] h = refl
replace_crlf_step c (d ∷ s) h = ground arith

replace_crlf-onlcr : (s : Text) → AllOf (λ c. (c == b'\r') ≡ false) s → replace_crlf (onlcr s) ≡ s
unfolding replace_crlf
replace_crlf-onlcr [] h = refl
replace_crlf-onlcr (c ∷ s) h = elim (Bool-cases (c == b'\n')) [
  | inl e ↦ ground (arith, replace_crlf-onlcr s h.1)
  | inr e ↦ ground (arith, replace_crlf_step c (onlcr s) h.0, replace_crlf-onlcr s h.1)
]

replace_char_of_lacks :
    (a b : ℕ) (s : Text) → AllOf (λ c. (c == a) ≡ false) s → replace_char a b s ≡ s
unfolding replace_char
replace_char_of_lacks a b [] h = refl
replace_char_of_lacks a b (c ∷ s) h = ground (arith, h.0, replace_char_of_lacks a b s h.1)

normalise_newlines-onlcr :
    (s : Text) → AllOf (λ c. (c == b'\r') ≡ false) s → normalise_newlines (onlcr s) ≡ s
unfolding normalise_newlines
normalise_newlines-onlcr s h = rw (replace_crlf-onlcr s h) (replace_char_of_lacks b'\r' b'\n' s h)

-- How `printf %d` prints a status of a shell.
abbrev pub print_status : ℕ → Text
print_status n =
    if ltb n 10
    then (b'0' + n) ∷ []
    else if ltb n 100
    then (b'0' + n / 10) ∷ (b'0' + n % 10) ∷ []
    else (b'0' + n / 100) ∷ (b'0' + n / 10 % 10) ∷ (b'0' + n % 10) ∷ []

completion_status_of_printed :
    (n : ℕ) (trailer : Text)
    → n < 256
    → completion_status (print_status n ++ (codes "__" ++ trailer)) ≡ ok n
unfolding completion_status leading_digits behind_digits parse_i32 parse_i32_from is_ascii_digit
    starts_with strip_prefix is_empty
completion_status_of_printed n trailer h = elim (Bool-cases (ltb n 10)) [
  | inl e ↦ ground arith
  | inr e ↦ elim (Bool-cases (ltb n 100)) [ inl e' ↦ ground arith | inr e' ↦ ground arith ]
]

-- A framed output is read back, whatever stands around it: a status below 256 as it is, and an
-- output with no carriage return of its own as the command printed it. The text before the first
-- marker and that marker's stem do not hold the marker, nor does the output with the stem of the
-- second marker hold the second.
pub extract_su_output-print :
    (noise nonce output trailer : Text) (status : ℕ)
    → contains_text (su_begin_marker nonce) (noise ++ (codes "__SSHW_BEGIN_" ++ nonce ++ codes "_"))
      ≡ false
    → contains_text (su_end_prefix nonce) (onlcr output ++ (codes "__SSHW_END_" ++ nonce)) ≡ false
    → AllOf (λ c. (c == b'\r') ≡ false) output
    → status < 256
    → extract_su_output
        (noise
          ++ (su_begin_marker nonce
              ++ (b'\r'
                  ∷ b'\n'
                  ∷ (onlcr output
                      ++ (su_end_prefix nonce
                          ++ (print_status status ++ (codes "__" ++ trailer)))))))
        nonce
      ≡ ok (output, status)
unfolding extract_su_output su_begin_marker su_end_prefix behind_newline split_once
extract_su_output-print noise nonce output trailer status no_begin no_end no_return small = ground (
  arith,
  find_text_first (codes "__SSHW_BEGIN_" ++ nonce ++ codes "_") noise
      (b'\r'
        ∷ b'\n'
        ∷ (onlcr output
            ++ (su_end_prefix nonce ++ (print_status status ++ (codes "__" ++ trailer)))))
      b'_' no_begin,
  find_text_first (codes "__SSHW_END_" ++ nonce) (onlcr output)
      (print_status status ++ (codes "__" ++ trailer)) b'_' no_end,
  completion_status_of_printed status trailer small,
  normalise_newlines-onlcr output no_return,
)
