-- ===== src/Base/Lists.antt =====
-- Iterator adaptors of the source over lists.
use Prim.Native.Nat.{ℕ, suc}
use mathlib.Core.Path.{◌≡◌, refl, ap}
use mathlib.Core.Logic.{◌⊎◌, inl, inr}
use mathlib.Core.Bool.{Bool, true, false, ◌||◌, ◌&&◌}
use mathlib.Core.Option.{Option, none, some}
use mathlib.Core.List.{List, [], ◌∷◌, ◌++◌}
use native.Mathlib.Omega.{arith}
use sshw.Base.Tests.{if◌then◌else◌, Bool-cases, Option-cases}

module _ {ℓ} {A : Type ℓ} where
  abbrev pub length : List A → ℕ
  length [] = 0
  length (x ∷ xs) = suc (length xs)

  unfoldable pub any : (A → Bool) → List A → Bool
  any p [] = false
  any p (x ∷ xs) = p x || any p xs

  unfoldable pub all : (A → Bool) → List A → Bool
  all p [] = true
  all p (x ∷ xs) = p x && all p xs

  unfoldable pub filter : (A → Bool) → List A → List A
  filter p [] = []
  filter p (x ∷ xs) = let rest = filter p xs in if p x then x ∷ rest else rest

  -- `Iterator::find`
  unfoldable pub find : (A → Bool) → List A → Option A
  find p [] = none
  find p (x ∷ xs) = if p x then some x else find p xs

module _ {A : Type 0} where
  -- `a` is an item of the list.
  abbrev pub Member : A → List A → Type 0
  Member a [] = ⊥
  Member a (x ∷ xs) = (x ≡ a) ⊎ Member a xs

  abbrev pub AllOf : (A → Type 0) → List A → Type 0
  AllOf P [] = Unit
  AllOf P (x ∷ xs) = P x × AllOf P xs

  -- A test that holds of some item holds of one that can be named.
  pub any-eq-true :
      (p : A → Bool) (xs : List A) → any p xs ≡ true → (x : A) × Member x xs × (p x ≡ true)
  unfolding any
  any-eq-true p [] h = absurd (ground arith)
  any-eq-true p (x ∷ xs) h = elim (Bool-cases (p x)) [
    | inl yes' ↦ (x, inl refl, yes')
    | inr no' ↦ let (y, m, e) = any-eq-true p xs (rw no' at h) in (y, inr m, e)
  ]

  pub any_of_Member :
      (p : A → Bool) (a : A) (xs : List A) → Member a xs → p a ≡ true → any p xs ≡ true
  unfolding any
  any_of_Member p a [] m h = absurd m
  any_of_Member p a (x ∷ xs) (inl e) h = ground (arith, ap p e)
  any_of_Member p a (x ∷ xs) (inr m) h = ground (arith, any_of_Member p a xs m h)

  pub all_of_Member :
      (p : A → Bool) (a : A) (xs : List A) → all p xs ≡ true → Member a xs → p a ≡ true
  unfolding all
  all_of_Member p a [] h m = absurd m
  all_of_Member p a (x ∷ xs) h (inl e) = ground (arith, ap p e)
  all_of_Member p a (x ∷ xs) h (inr m) = all_of_Member p a xs (ground arith) m

  pub any-append : (p : A → Bool) (xs ys : List A) → any p (xs ++ ys) ≡ (any p xs || any p ys)
  unfolding any
  any-append p [] ys = refl
  any-append p (x ∷ xs) ys = ground (arith, any-append p xs ys)

module _ {ℓ κ} {A : Type ℓ} {B : Type κ} where
  -- The first value that `f` finds: `Iterator::find_map`.
  unfoldable pub find_map : (A → Option B) → List A → Option B
  find_map f [] = none
  find_map f (x ∷ xs) = let rest = find_map f xs in elim (f x) [ some b ↦ some b | none ↦ rest ]

module _ {A B : Type 0} where
  pub find_map-eq-some :
      (f : A → Option B) (xs : List A) (b : B)
      → find_map f xs ≡ some b
      → (x : A) × Member x xs × (f x ≡ some b)
  unfolding find_map
  find_map-eq-some f [] b h = absurd (ground arith)
  find_map-eq-some f (x ∷ xs) b h = elim (Option-cases (f x)) [
    | inl e ↦ let (y, m, q) = find_map-eq-some f xs b (ground arith) in (y, inr m, q)
    | inr (c, e) ↦ (x, inl refl, ground arith)
  ]

  pub find_map-eq-none :
      (f : A → Option B) (a : A) (xs : List A) → find_map f xs ≡ none → Member a xs → f a ≡ none
  unfolding find_map
  find_map-eq-none f a [] h m = absurd m
  find_map-eq-none f a (x ∷ xs) h (inl e) = ground (arith, ap f e)
  find_map-eq-none f a (x ∷ xs) h (inr m) = find_map-eq-none f a xs (ground arith) m
