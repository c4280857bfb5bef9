-- ===== src/Access/Granted.antt =====
-- What a run that passes its checks was granted.
use sshw.Base.{Bool, Text, Option, some, ◌≡◌, ◌↔◌, arith, text_eq, get}
use sshw.Errors.{ok}
use sshw.Safety.{allow, classify_command}
use sshw.Sandbox.{allow as permit, Sandbox}
use sshw.Config.{SshwConfig}
use sshw.Access.{
  Target, get_server, select_account, account_decision, at_once, check_run_access, unwrap_or,
}

-- The rails and the sandbox allow the command, the account is the one that was asked for or the
-- server's default, it is configured, and the sandbox allows it.
abbrev pub Granted : Text → Text → Option Text → Bool → Sandbox → SshwConfig → Target → Type 0
Granted name command user yes' sandbox settings target =
    (classify_command command yes' ≡ allow)
    × (sandbox.check_command command ≡ permit)
    × (get name settings.servers ≡ some target.server)
    × (target.user ≡ unwrap_or user target.server.default_user)
    × (get target.user target.server.accounts ≡ some target.account)
    × (account_decision sandbox name target.user target.server ≡ permit)

-- A run is let through with a target exactly if everything was granted.
pub check_run_access-Granted :
    (name command : Text) (user : Option Text) (yes' : Bool) (sandbox : Sandbox)
    (settings : SshwConfig) (target : Target)
    → (check_run_access at_once name command user yes' sandbox settings tt ≡ (tt, ok target))
      ↔ Granted name command user yes' sandbox settings target
unfolding check_run_access at_once get_server select_account account_decision
check_run_access-Granted name command user yes' sandbox settings target =
    (λ h. ground arith, λ h. ground arith)
