-- ===== src/PolicyChange/Handler/Same.antt =====
-- The equality of policy files that `run_policy` tests (src/cli/policy_cmd.rs).
use sshw.Base.{Bool, true, false, Text, List, [], ◌∷◌, same, text_eq, ◌≡◌, refl, ap₂, arith}
use sshw.Policy.{AccountRule, PolicyFile}
use sshw.PolicyChange.{same_account}
use sshw.PolicyChange.Handler.{same_list, same_bool, same_policy}

module _ {A : Type 0} (eq : A → A → Bool) where
  same_list-eq-true :
      ((a b : A) → eq a b ≡ true → a ≡ b) → (xs ys : List A) → same_list eq xs ys ≡ true → xs ≡ ys
  unfolding same_list
  same_list-eq-true sound [] [] h = refl
  same_list-eq-true sound [] (y ∷ ys) h = absurd (ground arith)
  same_list-eq-true sound (x ∷ xs) [] h = absurd (ground arith)
  same_list-eq-true sound (x ∷ xs) (y ∷ ys) h =
      ap₂ ◌∷◌ (sound x y (ground arith)) (same_list-eq-true sound xs ys (ground arith))

  same_list_refl : ((a : A) → eq a a ≡ true) → (xs : List A) → same_list eq xs xs ≡ true
  unfolding same_list
  same_list_refl same_self [] = refl
  same_list_refl same_self (x ∷ xs) = ground (arith, same_self x, same_list_refl same_self xs)

same_bool-eq-true : (a b : Bool) → same_bool a b ≡ true → a ≡ b
unfolding same_bool
same_bool-eq-true true b h = ground arith
same_bool-eq-true false b h = ground arith

same_bool_refl : (a : Bool) → same_bool a a ≡ true
unfolding same_bool
same_bool_refl true = refl
same_bool_refl false = refl

same_text-eq-true : (a b : Text) → same a b ≡ true → a ≡ b
same_text-eq-true a b h = ground arith

same_text_refl : (a : Text) → same a a ≡ true
same_text_refl a = ground arith

same_account-eq-true : (a b : AccountRule) → same_account a b ≡ true → a ≡ b
unfolding same_account
same_account-eq-true a b h = ground arith

same_account_self : (a : AccountRule) → same_account a a ≡ true
unfolding same_account
same_account_self a = ground arith

-- Files that are found to be the same are.
pub same_policy-eq-true : (a b : PolicyFile) → same_policy a b ≡ true → a ≡ b
unfolding same_policy
same_policy-eq-true a b h = ground (
  arith,
  same_bool-eq-true a.enabled b.enabled,
  same_list-eq-true (λ x y. same x y) same_text-eq-true a.allow_commands b.allow_commands,
  same_list-eq-true (λ x y. same x y) same_text-eq-true a.allow_put_paths b.allow_put_paths,
  same_list-eq-true (λ x y. same x y) same_text-eq-true a.allow_get_paths b.allow_get_paths,
  same_list-eq-true same_account same_account-eq-true a.allow_accounts b.allow_accounts,
)

-- A file is found to be the same as itself.
pub same_policy_refl : (a : PolicyFile) → same_policy a a ≡ true
unfolding same_policy
same_policy_refl a = ground (
  arith,
  same_bool_refl a.enabled,
  same_list_refl (λ x y. same x y) same_text_refl a.allow_commands,
  same_list_refl (λ x y. same x y) same_text_refl a.allow_put_paths,
  same_list_refl (λ x y. same x y) same_text_refl a.allow_get_paths,
  same_list_refl same_account same_account_self a.allow_accounts,
)
