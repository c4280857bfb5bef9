-- ===== src/Ssh/Framing/Sound.antt =====
-- What is taken out of the terminal's text stood in a complete frame
-- (src/ssh/ssh2_client.rs, `extract_su_output`).
use sshw.Base.{
  ℕ, true, false, Text, codes, [], ◌∷◌, ◌++◌, none, some, inl, inr, ◌⊎◌, Option-cases, Bool-cases,
  append_assoc, is_ascii_digit, starts_with, split_once, strip_prefix, strip_prefix-eq-some, all,
  starts_with-eq-true, ◌≡◌, refl, arith, sym, ◌∙◌,
}
use sshw.Errors.{
  auth, ssh, ok, err, Error, classified_kind, app_error, classified_error, Result-cases,
  with_error_kind, contextual_error_kind, outer_context_kind, partial_context_kind,
}
use sshw.Errors.Classify.{contains_text}
use sshw.Ssh.Framing.{
  su_begin_marker, su_end_prefix, find_text, leading_digits, behind_digits, parse_i32,
  behind_newline, normalise_newlines, completion_status, extract_su_output,
}

pub find_text_here :
    (needle s rest : Text)
    → strip_prefix needle s ≡ some rest
    → find_text needle s ≡ some ([], rest)
unfolding find_text
find_text_here needle [] rest h = ground arith
find_text_here needle (c ∷ s) rest h = ground arith

pub find_text_later :
    (needle s before rest : Text) (c : ℕ)
    → strip_prefix needle (c ∷ s) ≡ none
    → find_text needle s ≡ some (before, rest)
    → find_text needle (c ∷ s) ≡ some (c ∷ before, rest)
unfolding find_text
find_text_later needle s before rest c h e = ground arith

find_text-eq-some :
    (needle s before rest : Text)
    → find_text needle s ≡ some (before, rest)
    → s ≡ before ++ (needle ++ rest)
unfolding find_text
find_text-eq-some needle [] before rest h = elim (Option-cases (strip_prefix needle [])) [
  | inl e ↦ absurd (ground arith)
  | inr (t, e) ↦ ground (arith, strip_prefix-eq-some needle [] t e)
]
find_text-eq-some needle (c ∷ s) before rest h = elim (Option-cases (strip_prefix needle (c ∷ s))) [
  | inr (t, e) ↦ ground (arith, strip_prefix-eq-some needle (c ∷ s) t e)
  | inl e ↦ elim (Option-cases (find_text needle s)) [
    | inl none' ↦ absurd (ground arith)
    | inr ((b, r), e') ↦ ground (arith, find_text-eq-some needle s b r e')
  ]
]

pub find_text-eq-none :
    (needle s : Text) → find_text needle s ≡ none → contains_text needle s ≡ false
unfolding find_text contains_text starts_with
find_text-eq-none needle [] h = elim (Option-cases (strip_prefix needle [])) [
  | inl e ↦ ground arith
  | inr (t, e) ↦ absurd (ground arith)
]
find_text-eq-none needle (c ∷ s) h = elim (Option-cases (strip_prefix needle (c ∷ s))) [
  | inr (t, e) ↦ absurd (ground arith)
  | inl e ↦ elim (Option-cases (find_text needle s)) [
    | inl none' ↦ ground (arith, find_text-eq-none needle s none')
    | inr ((b, r), e') ↦ absurd (ground arith)
  ]
]

pub contains_text_of_find :
    (needle s before rest : Text)
    → find_text needle s ≡ some (before, rest)
    → contains_text needle s ≡ true
unfolding find_text contains_text starts_with
contains_text_of_find needle [] before rest h = ground arith
contains_text_of_find needle (c ∷ s) before rest h =
    elim (Option-cases (strip_prefix needle (c ∷ s))) [
      | inr (t, e) ↦ ground arith
      | inl e ↦ elim (Option-cases (find_text needle s)) [
        | inl none' ↦ absurd (ground arith)
        | inr ((b, r), e') ↦ ground (arith, contains_text_of_find needle s b r e')
      ]
    ]

leading_digits-append : (s : Text) → s ≡ leading_digits s ++ behind_digits s
unfolding leading_digits behind_digits
leading_digits-append [] = refl
leading_digits-append (c ∷ s) = ground (arith, leading_digits-append s)

all_digits : (s : Text) → all is_ascii_digit (leading_digits s) ≡ true
unfolding leading_digits all
all_digits [] = refl
all_digits (c ∷ s) = ground (arith, all_digits s)

-- A marker's tail that gives a status starts with the status's digits, and two underscores.
completion_status-eq-ok :
    (tail : Text) (status : ℕ)
    → completion_status tail ≡ ok status
    → (digits : Text) × (trailer : Text) × (tail ≡ digits ++ (codes "__" ++ trailer))
      × (all is_ascii_digit digits ≡ true)
      × (parse_i32 digits ≡ some status)
unfolding completion_status
completion_status-eq-ok tail status h =
    elim (Bool-cases (starts_with (codes "__") (behind_digits tail))) [
      | inr e ↦ absurd (ground arith)
      | inl e ↦ elim (Option-cases (parse_i32 (leading_digits tail))) [
        | inl e' ↦ absurd (ground arith)
        | inr (n, e') ↦
            let (trailer, q) = starts_with-eq-true (codes "__") (behind_digits tail) e in
            (
              leading_digits tail,
              trailer,
              (ground (arith, leading_digits-append tail)),
              all_digits tail,
              ground arith,
            )
      ]
    ]

split_once-eq-some :
    (a : ℕ) (s left right : Text) → split_once a s ≡ some (left, right) → s ≡ left ++ a ∷ right
unfolding split_once
split_once-eq-some a [] left right h = cc
split_once-eq-some a (c ∷ s) left right h = elim (Option-cases (split_once a s)) [
  | inl e ↦ ground arith
  | inr ((l, r), e) ↦ ground (arith, split_once-eq-some a s l r e)
]

-- The line that `behind_newline` drops.
behind_newline-append : (s : Text) → (line : Text) × (s ≡ line ++ behind_newline s)
unfolding behind_newline
behind_newline-append s = elim (Option-cases (split_once b'\n' s)) [
  | inl e ↦ ([], rw (e, behind_newline))
  | inr ((line, rest), e) ↦ (
    line ++ b'\n' ∷ [],
    rw (e, behind_newline)
        (split_once-eq-some b'\n' s line rest e ∙ sym (append_assoc line (b'\n' ∷ []) rest)),
  )
]

-- A result of `extract_su_output` stood in the text: both markers of this nonce, the body between
-- them, and the digits of the status with two underscores behind the second.
pub extract_su_output-eq-ok :
    (raw nonce stdout : Text) (status : ℕ)
    → extract_su_output raw nonce ≡ ok (stdout, status)
    → (noise : Text) × (line : Text) × (body : Text) × (digits : Text) × (trailer : Text) × (raw
        ≡ noise
          ++ (su_begin_marker nonce
              ++ (line ++ (body ++ (su_end_prefix nonce ++ (digits ++ (codes "__" ++ trailer)))))))
      × (stdout ≡ normalise_newlines body)
      × (all is_ascii_digit digits ≡ true)
      × (parse_i32 digits ≡ some status)
unfolding extract_su_output
extract_su_output-eq-ok raw nonce stdout status h =
    elim (Option-cases (find_text (su_begin_marker nonce) raw)) [
      | inl e ↦ absurd (ground arith)
      | inr ((noise, after), e) ↦
          elim (Option-cases (find_text (su_end_prefix nonce) (behind_newline after))) [
            | inl e' ↦ absurd (ground arith)
            | inr ((body, tail), e') ↦ elim (Result-cases (completion_status tail)) [
              | inr (error, q) ↦ absurd (ground arith)
              | inl (n, q) ↦
                  let (digits, trailer, parts, all', value) = completion_status-eq-ok tail n q in
                  let (line, r) = behind_newline-append after in
                  (
                    noise,
                    line,
                    body,
                    digits,
                    trailer,
                    ground (
                      arith,
                      find_text-eq-some (su_begin_marker nonce) raw noise after e,
                      find_text-eq-some (su_end_prefix nonce) (behind_newline after) body tail e',
                    ),
                    ground arith,
                    all',
                    ground arith,
                  )
            ]
          ]
    ]

completion_status_kind :
    (tail : Text) (e : Error) → completion_status tail ≡ err e → classified_kind e ≡ some ssh
unfolding completion_status app_error classified_error classified_kind with_error_kind
    contextual_error_kind outer_context_kind partial_context_kind
completion_status_kind tail e h =
    elim (Bool-cases (starts_with (codes "__") (behind_digits tail))) [
      | inr no' ↦ ground arith
      | inl yes' ↦ ground arith
    ]

-- A failure is one of authentication exactly if the first marker was never printed; every other
-- failure is one of the session.
pub extract_su_output-eq-err :
    (raw nonce : Text) (e : Error)
    → extract_su_output raw nonce ≡ err e
    → ((contains_text (su_begin_marker nonce) raw ≡ false) × (classified_kind e ≡ some auth))
      ⊎ ((contains_text (su_begin_marker nonce) raw ≡ true) × (classified_kind e ≡ some ssh))
unfolding extract_su_output app_error classified_error classified_kind
extract_su_output-eq-err raw nonce e h =
    elim (Option-cases (find_text (su_begin_marker nonce) raw)) [
      | inl none' ↦ inl (find_text-eq-none (su_begin_marker nonce) raw none', ground arith)
      | inr ((noise, after), some') ↦ inr (
        contains_text_of_find (su_begin_marker nonce) raw noise after some',
        elim (Option-cases (find_text (su_end_prefix nonce) (behind_newline after))) [
          | inl none' ↦ ground arith
          | inr ((body, tail), end) ↦ elim (Result-cases (completion_status tail)) [
            | inl (n, q) ↦ absurd (ground arith)
            | inr (error, q) ↦ ground (arith, completion_status_kind tail error q)
          ]
        ],
      )
    ]
