-- ===== src/Access/Transfers.antt =====
-- The checks before an upload and a download (src/cli/transfer.rs), and the parent directory of an
-- atomic upload (src/ssh/atomic_upload.rs).
pub mod Allowed
use sshw.Base.{
  ℕ, Bool, true, false, ◌||◌, Text, codes, List, [], ◌∷◌, ◌++◌, Option, none, some, if◌then◌else◌,
  ◌==◌, same, text_eq, any, is_empty,
}
use sshw.Errors.{
  ErrorKind, config, policy, Message, says, Error, app_error, Result, ok, err, ◌>>=◌, ◌>>◌,
}
use sshw.Storage.Download.{LocalPath, check_download_destination}
use sshw.Safety.{SafetyDecision, allow, block, classify_remote_write_path}
use sshw.Sandbox.{DenyReason, SandboxDecision, allow as permit, deny, Sandbox}
use sshw.Config.{SshwConfig, ServerConfig, AccountConfig}
use sshw.Access.{
  Target, get_server, select_account, account_decision, safety_error, policy_error, deny_text,
}

unfoldable pub rsplit_once : ℕ → Text → Option (Text × Text)
rsplit_once sep [] = none
rsplit_once sep (c ∷ s) = elim (rsplit_once sep s) [
  | some (before, after) ↦ some (c ∷ before, after)
  | none ↦ if c == sep then some ([], s) else none
]

-- A name that is not a file name is refused; an empty parent is the root.
parent_of : Text → Text → Result Text
parent_of parent name =
    if is_empty name || (same name (codes ".") || same name (codes ".."))
    then err (app_error config (says (codes "atomic upload requires a destination filename")))
    else ok (if is_empty parent then codes "/" else parent)

unfoldable pub parent_path : Text → Result Text
unfolding rsplit_once parent_of
parent_path remote =
    if any (λ c. c == 0 || c == b'\\') remote
    then err (
        app_error config
          (says (codes "atomic upload requires an SFTP path with forward slashes and no NUL")))
    else elim (rsplit_once b'/' remote) [
      | none ↦ parent_of (codes ".") remote
      | some (parent, name) ↦ parent_of parent name
    ]

of_safety : SafetyDecision → Result (Unit {0})
of_safety allow = ok tt
of_safety (block reason) = err (safety_error reason)

of_sandbox : SandboxDecision → Result (Unit {0})
of_sandbox permit = ok tt
of_sandbox (deny reason) = err (policy_error reason)

of_parent : SandboxDecision → Result (Unit {0})
unfolding deny_text
of_parent permit = ok tt
of_parent (deny reason) = err (
    app_error policy (
      says (
        codes "atomic upload needs parent-directory permission for its temporary file: "
        ++ deny_text reason)))

check_parent : Text → Bool → Sandbox → Result (Unit {0})
unfolding of_parent
check_parent remote false sandbox = ok tt
check_parent remote true sandbox = do
  parent ← parent_path remote
  of_parent (sandbox.check_put parent)

unfoldable pub check_put_path : Text → Bool → Bool → Sandbox → Result (Unit {0})
unfolding of_safety of_sandbox check_parent
check_put_path remote yes' atomic sandbox = do
  of_safety (classify_remote_write_path remote yes')
  of_sandbox (sandbox.check_put remote)
  check_parent remote atomic sandbox

unfoldable pub check_get_path : Text → Sandbox → Result (Unit {0})
unfolding of_sandbox
check_get_path remote sandbox = of_sandbox (sandbox.check_get remote)

unfoldable pub checked_account : Text → Option Text → ServerConfig → Sandbox → Result Target
unfolding of_sandbox account_decision
checked_account name requested_user server sandbox = do
  (user, account) ← select_account name server requested_user
  of_sandbox (account_decision sandbox name user server)
  ok (record { server = server; user = user; account = account })

unfoldable pub check_put_access :
    Text → Option Text → Text → Bool → Bool → Sandbox → SshwConfig → Result Target
unfolding check_put_path checked_account
check_put_access name user remote yes' atomic sandbox settings = do
  check_put_path remote yes' atomic sandbox
  server ← get_server settings name
  checked_account name user server sandbox

unfoldable pub check_get_access :
    Text → Option Text → Text → LocalPath → Bool → Sandbox → SshwConfig → Result Target
unfolding check_get_path checked_account
check_get_access name user remote local yes' sandbox settings = do
  server ← get_server settings name
  check_get_path remote sandbox
  check_download_destination local yes'
  checked_account name user server sandbox
