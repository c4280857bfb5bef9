-- ===== src/Access.antt =====
-- The local checks that stand before a remote action (src/cli.rs, src/cli/transfer.rs, and
-- `parent_path` of src/ssh/atomic_upload.rs): the target, the safety rails, the sandbox and the
-- account.
pub mod Granted
pub mod Preflight
pub mod Transfers
use sshw.Base.{
  ℕ, Bool, true, false, not, ◌&&◌, ◌||◌, Text, codes, List, [], ◌∷◌, ◌++◌, Option, none, some,
  if◌then◌else◌, ◌==◌, same, text_eq, any, is_empty, trim, split, get, contains_key,
}
use sshw.Errors.{
  ErrorKind, safety, config, policy, usage, Message, says, unknown_server, unknown_account,
  privilege_missing, Error, app_error, Result, ok, err, ◌>>=◌, ◌>>◌, and_then,
}
use sshw.Safety.{
  BlockReason, recursive_force_delete, sudo_command, recursive_chmod, recursive_chown, pm2_delete,
  write_to_etc, write_to, SafetyDecision, allow, block, classify_command,
  classify_remote_write_path,
}
use sshw.Sandbox.{
  DenyReason, account_blocked, command_blocked, upload_blocked, download_blocked, SandboxDecision,
  allow as permit, deny, Sandbox,
}
use sshw.Config.{
  SshwConfig, ServerConfig, AccountConfig, PrivilegeConfig, PrivilegeMethod, sudo, su,
}

-- The text of a block, as safety.rs formats it.
block_text : BlockReason → Text
block_text recursive_force_delete = codes "recursive force delete requires --yes"
block_text sudo_command = codes "sudo requires --yes"
block_text recursive_chmod = codes "recursive chmod requires --yes"
block_text recursive_chown = codes "recursive chown requires --yes"
block_text pm2_delete = codes "pm2 delete requires --yes"
block_text write_to_etc = codes "writing to /etc requires --yes"
block_text (write_to path) = codes "writing to " ++ path ++ codes " requires --yes"

-- The text of a refusal, as sandbox.rs formats it.
unfoldable pub deny_text : DenyReason → Text
deny_text (account_blocked server user) =
    codes "account '"
    ++ server
    ++ b'/' ∷ user
    ++ codes "' is blocked by policy; add it to allow_accounts"
deny_text (command_blocked command) =
    codes "command blocked by policy: '" ++ command ++ codes "' is not in the allowlist"
deny_text (upload_blocked path) =
    codes "upload blocked by policy: '" ++ path ++ codes "' is not in the allowed paths"
deny_text (download_blocked path) =
    codes "download blocked by policy: '" ++ path ++ codes "' is not in the allowed paths"

unfoldable pub safety_error : BlockReason → Error
unfolding block_text
safety_error reason = app_error safety (says (block_text reason))

unfoldable pub policy_error : DenyReason → Error
unfolding deny_text
policy_error reason = app_error policy (says (deny_text reason))

-- The server, the login user and the account that a check lets through.
pub record Target : Type 0 where
  pub server : ServerConfig
  pub user : Text
  pub account : AccountConfig

unfoldable pub get_server : SshwConfig → Text → Result ServerConfig
get_server settings name = elim (get name settings.servers) [
  | none ↦ err (app_error config (unknown_server name))
  | some server ↦ ok server
]

abbrev pub unwrap_or : Option Text → Text → Text
unwrap_or none text = text
unwrap_or (some text) other = text

unfoldable pub select_account : Text → ServerConfig → Option Text → Result (Text × AccountConfig)
select_account server_name server requested_user =
    let user = unwrap_or requested_user server.default_user in
    elim (get user server.accounts) [
      | none ↦ err (app_error config (unknown_account server_name user))
      | some account ↦ ok (user, account)
    ]

unfoldable pub default_server_name : SshwConfig → Result Text
default_server_name settings = elim (settings.default) [
  | none ↦ err (app_error config (says (codes "no default server configured")))
  | some name ↦ ok name
]

unfoldable pub resolve_target_server : Option Text → SshwConfig → Result Text
unfolding default_server_name
resolve_target_server (some name) settings = ok name
resolve_target_server none settings = default_server_name settings

-- `split_target` with one fixed argument.
unfoldable pub split_run_target : List Text → Option (Option Text × Text)
split_run_target (command ∷ []) = some (none, command)
split_run_target (name ∷ command ∷ []) = some (some name, command)
split_run_target _ = none

unfoldable pub is_unknown : Option Text → SshwConfig → Bool
is_unknown none settings = false
is_unknown (some name) settings = not (contains_key name settings.servers)

-- The target's parts once it was split; the hints on quoting are left out.
resolve_parts : Option Text → Text → SshwConfig → Result (Text × Text)
unfolding is_unknown
resolve_parts name command settings =
    if is_unknown name settings
    then err (app_error config (unknown_server (unwrap_or name [])))
    else (resolve_target_server name settings >>= λ server.
        if is_empty (trim command)
        then err (app_error usage (says (codes "remote command cannot be empty or whitespace")))
        else ok (server, command))

unfoldable pub resolve_run_target : List Text → SshwConfig → Result (Text × Text)
unfolding split_run_target resolve_parts
resolve_run_target target settings = elim (split_run_target target) [
  | none ↦ err (app_error config (says (codes "run expects [name] <command>")))
  | some (name, command) ↦ resolve_parts name command settings
]

-- `sandbox.check_account`, on the account that was selected.
unfoldable pub account_decision : Sandbox → Text → Text → ServerConfig → SandboxDecision
account_decision sandbox name user server =
    sandbox.check_account name user (same user server.default_user)

-- What the callback captures is a state; it takes a refusal, and may end the check with an error.
module _ {S : Type 0} (on_denied : Error → S → S × Result (Unit {0})) where
  on_block : SafetyDecision → S → S × Result (Unit {0})
  unfolding safety_error
  on_block allow s = (s, ok tt)
  on_block (block reason) s = on_denied (safety_error reason) s

  on_deny : SandboxDecision → S → S × Result (Unit {0})
  unfolding policy_error
  on_deny permit s = (s, ok tt)
  on_deny (deny reason) s = on_denied (policy_error reason) s

  check_account : Text → Sandbox → ServerConfig → Text × AccountConfig → S → S × Result Target
  unfolding on_deny account_decision
  check_account name sandbox server (user, account) s =
      and_then (on_deny (account_decision sandbox name user server) s)
        (λ u checked. (checked, ok (record { server = server; user = user; account = account })))

  unfoldable pub check_run_access :
      Text → Text → Option Text → Bool → Sandbox → SshwConfig → S → S × Result Target
  unfolding on_block on_deny check_account
  check_run_access name command user yes' sandbox settings s =
      and_then (on_block (classify_command command yes') s) (λ u safe.
        and_then (on_deny (sandbox.check_command command) safe) (λ v permitted.
          and_then (permitted, get_server settings name)
            (λ server known.
              and_then (known, select_account name server user)
                (λ selected found. check_account name sandbox server selected found))))

-- Execution passes `Err`.
unfoldable pub at_once : Error → Unit {0} → Unit {0} × Result (Unit {0})
at_once e u = (u, err e)

-- Preflight pushes the refusal and goes on.
unfoldable pub collect : Error → List Error → List Error × Result (Unit {0})
collect e errors = (errors ++ e ∷ [], ok tt)

is_su : Option PrivilegeConfig → Bool
is_su none = false
is_su (some privilege) = elim (privilege.method) [ sudo ↦ false | su ↦ true ]

abbrev lacks_privilege : Option PrivilegeConfig → Bool
lacks_privilege none = true
lacks_privilege (some privilege) = false

unfoldable pub check_run_privilege : Text → Text → AccountConfig → Bool → Bool → Result (Unit {0})
unfolding is_su
check_run_privilege name user account as_root no_password =
    if as_root && (not no_password && lacks_privilege account.privilege)
    then err (app_error config (privilege_missing name user))
    else if no_password && is_su account.privilege
    then err (
        app_error config (
          says (
            codes
              "--no-password requires a sudo privilege path; this account is configured for su")))
    else ok tt
