-- ===== src/PolicyChange/Entries.antt =====
-- What a change of a list of entries keeps, and what a search of it finds (src/cli/policy_cmd.rs,
-- `change_rule`).
use sshw.Base.{
  Bool, true, false, not, List, [], ◌∷◌, ◌++◌, Option, ◌≡◌, refl, sym, ◌∙◌, subst, arith,
  Bool-cases, Option-cases, inl, inr, if◌then◌else◌, any, filter, find, find_map, is_some, Member,
  find_map-eq-some, find_map-eq-none, text_eq, any-eq-true, any_of_Member,
}
use sshw.PolicyChange.{change_entries}

-- Every item of one list is an item of the other.
abbrev pub Within : {A : Type 0} → List A → List A → Type 0
Within {A} xs ys = (x : A) → Member x xs → Member x ys

module _ {A : Type 0} where
  Member-append : (x : A) (xs ys : List A) → Member x xs → Member x (xs ++ ys)
  Member-append x [] ys m = absurd m
  Member-append x (y ∷ xs) ys (inl e) = inl e
  Member-append x (y ∷ xs) ys (inr m) = inr (Member-append x xs ys m)

  kept_entry :
      (keep : Bool) (x y : A) (xs rest : List A)
      → (Member x rest → Member x xs)
      → Member x (if keep then y ∷ rest else rest)
      → Member x (y ∷ xs)
  kept_entry true x y xs rest h (inl e) = inl e
  kept_entry true x y xs rest h (inr m) = inr (h m)
  kept_entry false x y xs rest h m = inr (h m)

  filter-Within : (p : A → Bool) (xs : List A) → Within (filter p xs) xs
  unfolding filter
  filter-Within p [] x m = absurd m
  filter-Within p (y ∷ xs) x m = kept_entry (p y) x y xs (filter p xs) (filter-Within p xs x) m

  pub change_entries-Within-removed :
      (eq : A → A → Bool) (value : A) (entries : List A)
      → Within (change_entries eq false value entries) entries
  unfolding change_entries
  change_entries-Within-removed eq value entries =
      filter-Within (λ entry. not (eq entry value)) entries

  pub change_entries-Within-added :
      (eq : A → A → Bool) (value : A) (entries : List A)
      → Within entries (change_entries eq true value entries)
  unfolding change_entries
  change_entries-Within-added eq value entries x m =
      elim (Bool-cases (any (λ entry. eq entry value) entries)) [
        | inl e ↦
            subst (λ there. Member x (if there then entries else entries ++ value ∷ [])) (sym e) m
        | inr e ↦
            subst (λ there. Member x (if there then entries else entries ++ value ∷ [])) (sym e)
              (Member-append x entries (value ∷ []) m)
      ]

  any-append_value :
      (p : A → Bool) (value : A) (xs : List A) → p value ≡ true → any p (xs ++ value ∷ []) ≡ true
  unfolding any
  any-append_value p value [] h = ground arith
  any-append_value p value (x ∷ xs) h = ground (arith, any-append_value p value xs h)

  any-filter : (p : A → Bool) (xs : List A) → any p (filter (λ x. not (p x)) xs) ≡ false
  unfolding any filter
  any-filter p [] = refl
  any-filter p (x ∷ xs) = elim (Bool-cases (p x)) [
    | inl e ↦ ground (arith, any-filter p xs)
    | inr e ↦ ground (arith, any-filter p xs)
  ]

  pub any-change_entries :
      (eq : A → A → Bool) (adding : Bool) (value : A) (entries : List A)
      → eq value value ≡ true
      → any (λ entry. eq entry value) (change_entries eq adding value entries) ≡ adding
  unfolding change_entries
  any-change_entries eq false value entries h = any-filter (λ entry. eq entry value) entries
  any-change_entries eq true value entries h =
      elim (Bool-cases (any (λ entry. eq entry value) entries)) [
        | inl e ↦ ground arith
        | inr e ↦ ground (arith, any-append_value (λ entry. eq entry value) value entries h)
      ]

  -- More entries find more.
  pub find_map-Within :
      {B : Type 0} (f : A → Option B) (xs ys : List A)
      → Within xs ys
      → is_some (find_map f xs) ≡ true
      → is_some (find_map f ys) ≡ true
  find_map-Within f xs ys within h = elim (Option-cases (find_map f xs)) [
    | inl e ↦ absurd (ground arith)
    | inr (b, e) ↦
        let (x, m, q) = find_map-eq-some f xs b e in
        elim (Option-cases (find_map f ys)) [
          | inr (c, r) ↦ ground arith
          | inl r ↦ absurd (let n = find_map-eq-none f x ys r (within x m) in ground arith)
        ]
  ]

  is_some-find : (p : A → Bool) (xs : List A) → is_some (find p xs) ≡ any p xs
  unfolding find any
  is_some-find p [] = refl
  is_some-find p (x ∷ xs) = ground (arith, is_some-find p xs)

  pub find-Within :
      (p : A → Bool) (xs ys : List A)
      → Within xs ys
      → is_some (find p xs) ≡ true
      → is_some (find p ys) ≡ true
  find-Within p xs ys within h =
      let (x, m, q) = any-eq-true p xs (sym (is_some-find p xs) ∙ h) in
      is_some-find p ys ∙ any_of_Member p x ys (within x m) q
