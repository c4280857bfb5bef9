-- ===== src/PolicyChange/Handler/Effect.antt =====
-- What a policy command makes of a policy, and whether it changes it (src/cli/policy_cmd.rs,
-- `run_policy`).
use sshw.Base.{
  not, ◌≢◌, ◌∙◌, ap, Bool, true, false, ◌&&◌, ◌≡◌, refl, arith, ◌⊎◌, inl, inr, Bool-cases,
  option_eq, text_eq,
}
use sshw.Errors.{Result, ok}
use sshw.Config.{SshwConfig}
use sshw.Policy.{PolicyFile}
use sshw.PolicyChange.Monotone.{has_rule, Ordered, AllowsWithin, change_rule-AllowsWithin}
use sshw.PolicyChange.Handler.Same.{same_policy-eq-true, same_policy_refl}
use sshw.PolicyChange.Handler.{
  init, show, enable, disable, allow, remove, same_policy, PolicyCommand, mutating, policy_after,
  is_changed,
}

-- What a command makes of a policy.
abbrev pub Effect : PolicyCommand → PolicyFile → PolicyFile → Type 0
Effect init before after = after ≡ before
Effect show before after = after ≡ before
Effect enable before after = after ≡ record before { enabled = true }
Effect disable before after = after ≡ record before { enabled = false }
Effect (allow rule) before after =
    (has_rule after rule ≡ true) × Ordered AllowsWithin true before after
Effect (remove rule) before after =
    (has_rule after rule ≡ false) × Ordered AllowsWithin false before after

-- What a policy that is written differs from.
abbrev pub Differs : PolicyCommand → PolicyFile → PolicyFile → Type 0
Differs init before after = Unit {0}
Differs show before after = ⊥
Differs enable before after = after ≢ before
Differs disable before after = after ≢ before
Differs (allow rule) before after = after ≢ before
Differs (remove rule) before after = after ≢ before

pub after-Effect :
    (loaded : Result SshwConfig) (action : PolicyCommand) (before after : PolicyFile)
    → policy_after loaded action before ≡ ok after
    → Effect action before after
unfolding policy_after
after-Effect loaded init before after h = ground arith
after-Effect loaded show before after h = ground arith
after-Effect loaded enable before after h = ground arith
after-Effect loaded disable before after h = ground arith
after-Effect loaded (allow rule) before after h =
    change_rule-AllowsWithin loaded before after rule true h
after-Effect loaded (remove rule) before after h =
    change_rule-AllowsWithin loaded before after rule false h

-- The test of a change, behind the other tests.
abbrev Tested : Bool → PolicyFile → PolicyFile → Type 0
Tested changed before after =
    ((changed ≡ true) × (after ≢ before)) ⊎ ((changed ≡ false) × (after ≡ before))

not_same-Tested : (before after : PolicyFile) → Tested (not (same_policy after before)) before after
not_same-Tested before after = elim (Bool-cases (same_policy after before)) [
  | inl e ↦ inr (ground arith, same_policy-eq-true after before e)
  | inr e ↦ inl (
    ground arith,
    λ q. absurd (
        let found : same_policy after before ≡ true =
          ap (λ file. same_policy file before) q ∙ same_policy_refl before in
        ground arith),
  )
]

pub changed_lem :
    (action : PolicyCommand) (before after : PolicyFile)
    → Effect action before after
    → ((is_changed action before after ≡ true)
        × (mutating action && is_changed action before after ≡ true)
        × Differs action before after)
      ⊎ ((is_changed action before after ≡ false)
          × (mutating action && is_changed action before after ≡ false)
          × (after ≡ before))
unfolding is_changed mutating
changed_lem init before after h = inl (refl, refl, tt)
changed_lem show before after h = elim (not_same-Tested before after) [
  | inl (c, d) ↦ absurd (d h)
  | inr (c, s) ↦ inr (c, refl, s)
]
changed_lem enable before after h = elim (not_same-Tested before after) [
  | inl (c, d) ↦ inl (c, c, d)
  | inr (c, s) ↦ inr (c, c, s)
]
changed_lem disable before after h = elim (not_same-Tested before after) [
  | inl (c, d) ↦ inl (c, c, d)
  | inr (c, s) ↦ inr (c, c, s)
]
changed_lem (allow rule) before after h = elim (not_same-Tested before after) [
  | inl (c, d) ↦ inl (c, c, d)
  | inr (c, s) ↦ inr (c, c, s)
]
changed_lem (remove rule) before after h = elim (not_same-Tested before after) [
  | inl (c, d) ↦ inl (c, c, d)
  | inr (c, s) ↦ inr (c, c, s)
]
