-- ===== src/Sandbox.antt =====
-- The authorization layer (src/sandbox.rs), and how the command line chooses it (src/cli.rs).
pub mod Agreement
use sshw.Base.{Bool, Text, if◌then◌else◌}
use sshw.Policy.{PolicyRules, Policy, disabled, enabled}
use sshw.Policy.Commands.{allows_command, allows_put, allows_get, allows_account}

-- Why an operation is refused, with the values that the message shows.
pub data DenyReason : Type 0 where
  account_blocked : Text → Text → DenyReason
  command_blocked : Text → DenyReason
  upload_blocked : Text → DenyReason
  download_blocked : Text → DenyReason

pub data SandboxDecision : Type 0 where
  allow : SandboxDecision
  deny : DenyReason → SandboxDecision

-- The trait `Sandbox`.
pub record Sandbox : Type 0 where
  pub check_account : Text → Text → Bool → SandboxDecision
  pub check_command : Text → SandboxDecision
  pub check_put : Text → SandboxDecision
  pub check_get : Text → SandboxDecision

unfoldable pub noop_sandbox : Sandbox
noop_sandbox = record {
  check_account = λ server user is_default. allow;
  check_command = λ command. allow;
  check_put = λ remote_path. allow;
  check_get = λ remote_path. allow;
}

unfoldable pub policy_only_sandbox : PolicyRules → Sandbox
policy_only_sandbox rules = record {
  check_account = λ server user is_default.
      if allows_account rules server user is_default
      then allow
      else deny (account_blocked server user);
  check_command =
      λ command. if allows_command rules command then allow else deny (command_blocked command);
  check_put = λ remote_path.
      if allows_put rules remote_path then allow else deny (upload_blocked remote_path);
  check_get = λ remote_path.
      if allows_get rules remote_path then allow else deny (download_blocked remote_path);
}

unfoldable pub sandbox_from_policy : Policy → Sandbox
unfolding noop_sandbox policy_only_sandbox
sandbox_from_policy disabled = noop_sandbox
sandbox_from_policy (enabled rules) = policy_only_sandbox rules
