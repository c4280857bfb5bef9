-- ===== src/Base/Prefixes.antt =====
-- Laws of `strip_prefix`, `starts_with` and `strip_suffix_char`.
use Prim.Native.Nat.{ℕ}
use mathlib.Core.Path.{◌≡◌, refl}
use mathlib.Core.Bool.{true, false}
use mathlib.Core.Option.{some}
use mathlib.Core.List.{[], ◌∷◌, ◌++◌}
use native.Mathlib.Omega.{arith}
use mathlib.Core.Logic.{inl, inr}
use sshw.Base.Tests.{Option-cases}
use sshw.Base.Texts.{Text, is_empty, strip_prefix, starts_with, strip_suffix_char}

pub is_empty-eq-true : (s : Text) → is_empty s ≡ true → s ≡ []
unfolding is_empty
is_empty-eq-true [] h = refl
is_empty-eq-true (c ∷ s) h = cc

pub is_empty-eq-false : (s : Text) → (s ≡ [] → ⊥) → is_empty s ≡ false
unfolding is_empty
is_empty-eq-false [] h = absurd (h refl)
is_empty-eq-false (c ∷ s) h = refl

pub strip_prefix-append : (prefix rest : Text) → strip_prefix prefix (prefix ++ rest) ≡ some rest
unfolding strip_prefix
strip_prefix-append [] rest = refl
strip_prefix-append (p ∷ prefix) rest = ground (arith, strip_prefix-append prefix rest)

pub strip_prefix-eq-some :
    (prefix s rest : Text) → strip_prefix prefix s ≡ some rest → s ≡ prefix ++ rest
unfolding strip_prefix
strip_prefix-eq-some [] s rest h = ground arith
strip_prefix-eq-some (p ∷ prefix) [] rest h = cc
strip_prefix-eq-some (p ∷ prefix) (c ∷ s) rest h =
    ground (arith, strip_prefix-eq-some prefix s rest)

pub starts_with-append : (prefix rest : Text) → starts_with prefix (prefix ++ rest) ≡ true
unfolding starts_with
starts_with-append prefix rest = rw strip_prefix-append

pub starts_with-eq-true :
    (prefix s : Text) → starts_with prefix s ≡ true → (rest : Text) × (s ≡ prefix ++ rest)
unfolding starts_with
starts_with-eq-true prefix s h = elim (Option-cases (strip_prefix prefix s)) [
  | inl e ↦ absurd (ground arith)
  | inr (rest, e) ↦ (rest, strip_prefix-eq-some prefix s rest e)
]

pub strip_suffix_char-append : (a : ℕ) (s : Text) → strip_suffix_char a (s ++ a ∷ []) ≡ some s
unfolding strip_suffix_char
strip_suffix_char-append a [] = ground arith
strip_suffix_char-append a (c ∷ []) = ground arith
strip_suffix_char-append a (c ∷ d ∷ s) = rw (strip_suffix_char-append a (d ∷ s))

pub strip_suffix_char-eq-some :
    (a : ℕ) (s rest : Text) → strip_suffix_char a s ≡ some rest → s ≡ rest ++ a ∷ []
unfolding strip_suffix_char
strip_suffix_char-eq-some a [] rest h = cc
strip_suffix_char-eq-some a (c ∷ []) rest h = ground arith
strip_suffix_char-eq-some a (c ∷ d ∷ s) rest h = elim (Option-cases (strip_suffix_char a (d ∷ s))) [
  | inl e ↦ absurd (ground arith)
  | inr (t, e) ↦ ground (arith, strip_suffix_char-eq-some a (d ∷ s) t e)
]
