-- ===== src/Base/Maps.antt =====
-- `BTreeMap` as an association list in the order of its keys.
use mathlib.Core.Path.{◌≡◌, refl}
use mathlib.Core.Bool.{Bool, true, false}
use mathlib.Core.Option.{Option, none, some}
use mathlib.Core.List.{List, [], ◌∷◌}
use native.Mathlib.Omega.{arith}
use sshw.Base.Tests.{same, ltb, ◌==◌, if◌then◌else◌}
use sshw.Base.Texts.{Text, text_eq, is_some}
use sshw.Base.Lists.{Member}

abbrev pub Map : Type 0 → Type 0
Map V = List (Text × V)

-- `str`'s order: code points and UTF-8 bytes sort alike.
unfoldable pub text_lt : Text → Text → Bool
text_lt s [] = false
text_lt [] (d ∷ t) = true
text_lt (c ∷ s) (d ∷ t) = let rest = text_lt s t in if c == d then rest else ltb c d

module _ {V : Type 0} where
  unfoldable pub get : Text → Map V → Option V
  get k [] = none
  get k ((j, v) ∷ m) = let rest = get k m in if same j k then some v else rest

  unfoldable pub contains_key : Text → Map V → Bool
  contains_key k [] = false
  contains_key k ((j, v) ∷ m) = let rest = contains_key k m in if same j k then true else rest

  -- A key that is there keeps its place; a new one goes before the first greater key.
  unfoldable pub insert : Text → V → Map V → Map V
  unfolding text_lt
  insert k v [] = (k, v) ∷ []
  insert k v ((j, w) ∷ m) =
      let rest = insert k v m in
      if same j k then (k, v) ∷ m else if text_lt k j then (k, v) ∷ (j, w) ∷ m else (j, w) ∷ rest

  unfoldable pub remove : Text → Map V → Map V
  remove k [] = []
  remove k ((j, v) ∷ m) = let rest = remove k m in if same j k then rest else (j, v) ∷ rest

  unfoldable pub keys : Map V → List Text
  keys [] = []
  keys ((k, v) ∷ m) = k ∷ keys m

  pub get-insert :
      (k j : Text) (v : V) (m : Map V)
      → get j (insert k v m) ≡ (if same k j then some v else get j m)
  unfolding get insert
  get-insert k j v [] = refl
  get-insert k j v ((i, w) ∷ m) = ground (arith, get-insert k j v m)

  pub get-remove :
      (k j : Text) (m : Map V) → get j (remove k m) ≡ (if same k j then none else get j m)
  unfolding get remove
  get-remove k j [] = ground arith
  get-remove k j ((i, w) ∷ m) = ground (arith, get-remove k j m)

  -- `contains_key` is whether `get` finds something.
  pub contains_key-get : (k : Text) (m : Map V) → contains_key k m ≡ is_some (get k m)
  unfolding get contains_key
  contains_key-get k [] = refl
  contains_key-get k ((i, w) ∷ m) = ground (arith, contains_key-get k m)

  -- What `get` finds is an entry.
  pub Member-of_get : (k : Text) (v : V) (m : Map V) → get k m ≡ some v → Member (k, v) m
  unfolding get
  Member-of_get k v [] h = absurd (ground arith)
  Member-of_get k v ((i, w) ∷ m) h = ground (arith, Member-of_get k v m)

-- No key stands twice, as in any `BTreeMap`.
abbrev pub NodupKeys : {V : Type 0} → Map V → Type 0
NodupKeys [] = Unit
NodupKeys ((k, v) ∷ m) = (get k m ≡ none) × NodupKeys m
