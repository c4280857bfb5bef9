-- ===== src/Ssh/Framing.antt =====
-- The frame around what a `su` command prints (src/ssh/ssh2_client.rs): the markers, and how the
-- output and the status are taken out of the terminal's text.
pub mod RoundTrip
pub mod Sound
use sshw.Base.{
  ℕ, ◌+◌, ◌*◌, ◌-◌, Bool, true, false, ◌&&◌, ◌||◌, Text, codes, List, [], ◌∷◌, ◌++◌, Option, none,
  some, if◌then◌else◌, leb, ◌==◌, is_empty, is_ascii_digit, is_whitespace, last_part, ltb, not,
  replace_char, split_once, starts_with, strip_prefix, to_ascii_lowercase, trim_end_matches,
}
use sshw.Errors.{
  auth, ssh, context, message, app_error, says, Error, Result, err, ok, with_error_kind, ◌>>=◌,
  ◌>>◌, ensure,
}
use sshw.Errors.Classify.{contains_text}

unfoldable pub su_begin_marker : Text → Text
su_begin_marker nonce = (codes "__SSHW_BEGIN_" ++ nonce ++ codes "_") ++ b'_' ∷ []

unfoldable pub su_end_prefix : Text → Text
su_end_prefix nonce = (codes "__SSHW_END_" ++ nonce) ++ b'_' ∷ []

-- `contains_subslice(haystack, needle)`
unfoldable pub contains_subslice : Text → Text → Bool
unfolding contains_text is_empty
contains_subslice haystack needle = is_empty needle || contains_text needle haystack

-- `str::find`, with what stands before and behind the first occurrence.
unfoldable pub find_text : Text → Text → Option (Text × Text)
find_text needle [] = elim (strip_prefix needle []) [ none ↦ none | some rest ↦ some ([], rest) ]
find_text needle (c ∷ s) =
    let later = find_text needle s in
    elim (strip_prefix needle (c ∷ s)) [
      | some rest ↦ some ([], rest)
      | none ↦ elim later [ none ↦ none | some (before, rest) ↦ some (c ∷ before, rest) ]
    ]

-- `take_while(is_ascii_digit)`
unfoldable pub leading_digits : Text → Text
unfolding is_ascii_digit
leading_digits [] = []
leading_digits (c ∷ s) = let rest = leading_digits s in if is_ascii_digit c then c ∷ rest else []

-- What stands behind these digits.
unfoldable pub behind_digits : Text → Text
unfolding is_ascii_digit
behind_digits [] = []
behind_digits (c ∷ s) = let rest = behind_digits s in if is_ascii_digit c then rest else c ∷ s

abbrev pub i32_max : ℕ
i32_max = 2147483647

-- `parse::<i32>` on ASCII digits: each step is checked for overflow.
unfoldable pub parse_i32_from : ℕ → Text → Option ℕ
parse_i32_from n [] = some n
parse_i32_from n (c ∷ s) =
    let next = n * 10 + (c - b'0') in
    let rest = parse_i32_from next s in if leb next i32_max then rest else none

unfoldable pub parse_i32 : Text → Option ℕ
unfolding parse_i32_from is_empty
parse_i32 s = if is_empty s then none else parse_i32_from 0 s

-- `replace("\r\n", "\n")`
unfoldable pub replace_crlf : Text → Text
replace_crlf [] = []
replace_crlf (c ∷ []) = c ∷ []
replace_crlf (c ∷ d ∷ s) =
    let joined = replace_crlf s in
    let rest = replace_crlf (d ∷ s) in if c == b'\r' && d == b'\n' then b'\n' ∷ joined else c ∷ rest

unfoldable pub normalise_newlines : Text → Text
unfolding replace_crlf replace_char
normalise_newlines s = replace_char b'\r' b'\n' (replace_crlf s)

-- `Option::ok_or`
abbrev pub ok_or {ℓ} : {T : Type ℓ} → Option T → Error → Result T
ok_or none e = err e
ok_or (some value) e = ok value

-- What stands behind the first line feed, or all of the text if it has none.
unfoldable pub behind_newline : Text → Text
unfolding split_once
behind_newline s = elim (split_once b'\n' s) [ none ↦ s | some (line, rest) ↦ rest ]

abbrev malformed : Error
malformed = app_error ssh (says (codes "su output ended with a malformed completion marker"))

unfoldable pub completion_status : Text → Result ℕ
unfolding leading_digits behind_digits parse_i32 is_empty starts_with with_error_kind
completion_status marker_tail =
    let digits = leading_digits marker_tail in
    let rest = behind_digits marker_tail in
    ensure (not (is_empty digits || not (starts_with (codes "__") rest))) malformed
    >> ok_or (parse_i32 digits) (
        with_error_kind ssh (
          context (says (codes "su output ended with a malformed completion marker"))
          ∷ message (says (codes "number too large to fit in target type"))
          ∷ []))

unfoldable pub extract_su_output : Text → Text → Result (Text × ℕ)
unfolding su_begin_marker su_end_prefix find_text behind_newline completion_status
    normalise_newlines
extract_su_output raw marker_nonce =
    ok_or (find_text (su_begin_marker marker_nonce) raw)
      (app_error auth (says (codes "su authentication failed or password prompt was not answered")))
    >>= λ (noise, after_begin).
        ok_or (find_text (su_end_prefix marker_nonce) (behind_newline after_begin))
          (app_error ssh (says (codes "su output ended before the completion marker")))
        >>= λ (body, marker_tail).
            completion_status marker_tail >>= λ exit_code. ok (normalise_newlines body, exit_code)

abbrev is_newline : ℕ → Bool
is_newline c = c == b'\n' || c == b'\r'

-- `ends_with(c)`
abbrev ends_with_char : ℕ → Text → Bool
ends_with_char c [] = false
ends_with_char c (d ∷ []) = d == c
ends_with_char c (d ∷ e ∷ s) = ends_with_char c (e ∷ s)

unfoldable pub output_has_password_prompt : Text → Bool
unfolding last_part to_ascii_lowercase contains_text trim_end_matches is_whitespace
output_has_password_prompt out =
    let lower = to_ascii_lowercase (last_part is_newline out) in
    contains_text (codes "password") lower
    && ends_with_char b':' (trim_end_matches is_whitespace lower)
