-- ===== src/Sandbox/Agreement.antt =====
-- What the sandbox enforces is what the policy explains.
use sshw.Base.{Bool, true, false, Text, ◌≡◌, arith}
use sshw.Policy.{Policy, disabled, enabled}
use sshw.Policy.Paths.{path_is_allowed}
use sshw.Policy.Commands.{allows_command, allows_put, allows_get, allows_account}
use sshw.Policy.Explain.{explain_command, explain_path, explain_account}
use sshw.Sandbox.{SandboxDecision, allow, deny, sandbox_from_policy}

-- Whether a decision allows.
abbrev pub is_allow : SandboxDecision → Bool
is_allow allow = true
is_allow (deny reason) = false

-- For every policy and operation the sandbox built from the policy allows exactly what the
-- policy explains as allowed.
pub sandbox-explain :
    (policy : Policy) (command path server user : Text) (is_default : Bool)
    → (is_allow ((sandbox_from_policy policy).check_command command)
        ≡ (explain_command policy command).allowed)
      × (is_allow ((sandbox_from_policy policy).check_put path)
          ≡ (explain_path policy path true).allowed)
      × (is_allow ((sandbox_from_policy policy).check_get path)
          ≡ (explain_path policy path false).allowed)
      × (is_allow ((sandbox_from_policy policy).check_account server user is_default)
          ≡ (explain_account policy server user is_default).allowed)
unfolding sandbox_from_policy explain_command explain_path explain_account allows_command allows_put
    allows_get allows_account path_is_allowed
sandbox-explain disabled command path server user is_default =
    (ground arith, ground arith, ground arith, ground arith)
sandbox-explain (enabled rules) command path server user is_default =
    (ground arith, ground arith, ground arith, ground arith)
