-- ===== src/Base/Texts.antt =====
-- `String` and `&str` as their code points, with the methods that the source calls.
use Prim.Native.Nat.{ℕ, ◌+◌}
use Prim.Native.Char.{code}
use Prim.Native.String.{String}
use mathlib.Core.Path.{refl, ap, ap₂}
use mathlib.Core.Logic.{dite}
use mathlib.Core.Bool.{Bool, true, false, not, ◌&&◌, ◌||◌}
use mathlib.Core.Option.{Option, none, some}
use mathlib.Core.List.{List, [], ◌∷◌, map}
use native.Mathlib.Decide.{ℕ_discrete}
use sshw.Base.Tests.{Eq, ltb, leb, ◌==◌, if◌then◌else◌}
use sshw.Base.Lists.{filter}

abbrev pub Text : Type 0
Text = List ℕ

-- The code points of a literal.
abbrev pub codes : String → Text
codes String.[] = []
codes (String.◌∷◌ c s) = code c ∷ codes s

abbrev code_at : Text → ℕ
code_at [] = 0
code_at (c ∷ s) = c

abbrev behind : Text → Text
behind [] = []
behind (c ∷ s) = s

unfoldable pub text_dec : Discrete Text
unfolding ℕ_discrete
text_dec [] [] = yes refl
text_dec [] (d ∷ t) = no (λ p. cc)
text_dec (c ∷ s) [] = no (λ p. cc)
text_dec (c ∷ s) (d ∷ t) =
    dite (ℕ_discrete c d)
      (λ p. dite (text_dec s t) (λ q. yes (ap₂ ◌∷◌ p q)) (λ n. no (λ e. n (ap behind e))))
      (λ n. no (λ e. n (ap code_at e)))

instance unfoldable pub text_eq : Eq Text
unfolding text_dec
text_eq = record { dec = text_dec }

-- `char::is_whitespace`: the code points with the property White_Space.
unfoldable pub is_whitespace : ℕ → Bool
is_whitespace c =
    (leb 9 c && leb c 13)
    || c == 32
    || c == 0x85
    || c == 0xa0
    || c == 0x1680
    || (leb 0x2000 c && leb c 0x200a)
    || c == 0x2028
    || c == 0x2029
    || c == 0x202f
    || c == 0x205f
    || c == 0x3000

-- `char::is_control`: the general category Cc.
unfoldable pub is_control : ℕ → Bool
is_control c = ltb c 32 || (leb 127 c && leb c 159)

unfoldable pub is_ascii_upper : ℕ → Bool
is_ascii_upper c = leb b'A' c && leb c b'Z'

unfoldable pub is_ascii_digit : ℕ → Bool
is_ascii_digit c = leb b'0' c && leb c b'9'

unfoldable pub is_ascii_alphabetic : ℕ → Bool
unfolding is_ascii_upper
is_ascii_alphabetic c = is_ascii_upper c || (leb b'a' c && leb c b'z')

unfoldable pub is_ascii_alphanumeric : ℕ → Bool
unfolding is_ascii_alphabetic is_ascii_digit
is_ascii_alphanumeric c = is_ascii_alphabetic c || is_ascii_digit c

unfoldable pub is_ascii_hexdigit : ℕ → Bool
unfolding is_ascii_digit
is_ascii_hexdigit c = is_ascii_digit c || (leb b'a' c && leb c b'f') || (leb b'A' c && leb c b'F')

unfoldable pub to_ascii_lowercase : Text → Text
unfolding is_ascii_upper
to_ascii_lowercase = map (λ c. if is_ascii_upper c then c + 32 else c)

-- `str::replace` with two characters.
unfoldable pub replace_char : ℕ → ℕ → Text → Text
replace_char a b = map (λ c. if c == a then b else c)

unfoldable pub is_empty : Text → Bool
is_empty [] = true
is_empty (c ∷ s) = false

unfoldable pub trim_start_matches : (ℕ → Bool) → Text → Text
trim_start_matches p [] = []
trim_start_matches p (c ∷ s) = let rest = trim_start_matches p s in if p c then rest else c ∷ s

-- A tail of matching characters goes; a character is kept if something behind it is.
unfoldable pub trim_end_matches : (ℕ → Bool) → Text → Text
trim_end_matches p [] = []
trim_end_matches p (c ∷ s) =
    let rest = trim_end_matches p s in if p c && is_empty rest then [] else c ∷ rest

unfoldable pub trim_matches : (ℕ → Bool) → Text → Text
unfolding trim_start_matches trim_end_matches is_empty
trim_matches p s = trim_end_matches p (trim_start_matches p s)

unfoldable pub trim : Text → Text
unfolding trim_matches is_whitespace
trim = trim_matches is_whitespace

unfoldable pub strip_prefix : Text → Text → Option Text
strip_prefix [] s = some s
strip_prefix (p ∷ ps) [] = none
strip_prefix (p ∷ ps) (c ∷ s) = let rest = strip_prefix ps s in if p == c then rest else none

abbrev pub is_some {ℓ} : {A : Type ℓ} → Option A → Bool
is_some none = false
is_some (some a) = true

unfoldable pub starts_with : Text → Text → Bool
unfolding strip_prefix
starts_with prefix s = is_some (strip_prefix prefix s)

-- `strip_suffix` with one character.
unfoldable pub strip_suffix_char : ℕ → Text → Option Text
strip_suffix_char a [] = none
strip_suffix_char a (c ∷ []) = if c == a then some [] else none
strip_suffix_char a (c ∷ d ∷ s) = elim (strip_suffix_char a (d ∷ s)) [
  | none ↦ none
  | some t ↦ some (c ∷ t)
]

-- One more character in front of the first part.
abbrev pub push_front : ℕ → List Text → List Text
push_front c [] = (c ∷ []) ∷ []
push_front c (w ∷ ws) = (c ∷ w) ∷ ws

-- `str::split` at every character with `p`: one part more than there are such characters.
unfoldable pub split : (ℕ → Bool) → Text → List Text
split p [] = [] ∷ []
split p (c ∷ s) = let rest = split p s in if p c then [] ∷ rest else push_front c rest

unfoldable pub split_whitespace : Text → List Text
unfolding split is_whitespace filter is_empty
split_whitespace s = filter (λ w. not (is_empty w)) (split is_whitespace s)

abbrev pub last_or : Text → List Text → Text
last_or d [] = d
last_or d (w ∷ ws) = last_or w ws

-- `rsplit(p).next()`, which always finds a part.
unfoldable pub last_part : (ℕ → Bool) → Text → Text
unfolding split
last_part p s = last_or [] (split p s)

-- The parts of a text at its first `a`: `split_once`.
unfoldable pub split_once : ℕ → Text → Option (Text × Text)
split_once a [] = none
split_once a (c ∷ s) =
    let rest = split_once a s in
    if c == a then some ([], s) else elim rest [ none ↦ none | some (l, r) ↦ some (c ∷ l, r) ]

unfoldable pub is_path_separator : ℕ → Bool
is_path_separator c = c == b'/' || c == b'\\'
