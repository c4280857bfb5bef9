-- ===== src/Base/Splits.antt =====
-- Laws of `split` and of what is built on it.
use Prim.Native.Nat.{ℕ}
use mathlib.Core.Path.{◌≡◌, refl}
use mathlib.Core.Logic.{◌≢◌}
use mathlib.Core.Bool.{Bool, true, false}
use mathlib.Core.List.{List, [], ◌∷◌, ◌++◌}
use native.Mathlib.Omega.{arith}
use sshw.Base.Lists.{AllOf}
use sshw.Base.Texts.{Text, split, last_or, last_part, push_front}

module _ (p : ℕ → Bool) where
  pub split-ne-nil : (s : Text) → split p s ≢ []
  unfolding split
  split-ne-nil [] = ground arith
  split-ne-nil (c ∷ s) = ground arith

  push_front-append :
      (c : ℕ) (ws vs : List Text) → ws ≢ [] → push_front c (ws ++ vs) ≡ push_front c ws ++ vs
  push_front-append c [] vs h = absurd (h refl)
  push_front-append c (w ∷ ws) vs h = refl

  -- A separator cuts: the parts before it, then those behind it.
  pub split_at_separator :
      (a b : Text) (c : ℕ) → p c ≡ true → split p (a ++ c ∷ b) ≡ split p a ++ split p b
  unfolding split
  split_at_separator [] b c h = ground arith
  split_at_separator (d ∷ a) b c h = ground (
    arith,
    split_at_separator a b c h,
    push_front-append d (split p a) (split p b) (split-ne-nil a),
  )

  -- A text with no separator is one part.
  pub split_of_lacks : (s : Text) → AllOf (λ c. p c ≡ false) s → split p s ≡ s ∷ []
  unfolding split
  split_of_lacks [] h = refl
  split_of_lacks (c ∷ s) h = ground (arith, split_of_lacks s h.1)

  last_or-append : (d : Text) (ws vs : List Text) → vs ≢ [] → last_or d (ws ++ vs) ≡ last_or [] vs
  last_or-append d [] [] h = absurd (h refl)
  last_or-append d [] (v ∷ vs) h = refl
  last_or-append d (w ∷ ws) vs h = last_or-append w ws vs h

  pub last_part_behind :
      (a b : Text) (c : ℕ) → p c ≡ true → last_part p (a ++ c ∷ b) ≡ last_part p b
  unfolding last_part
  last_part_behind a b c h =
      rw (split_at_separator a b c h) (last_or-append [] (split p a) (split p b) (split-ne-nil b))

  pub last_part_of_lacks : (s : Text) → AllOf (λ c. p c ≡ false) s → last_part p s ≡ s
  unfolding last_part
  last_part_of_lacks s h = rw (split_of_lacks s h)
