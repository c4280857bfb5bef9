-- ===== src/Access/Transfers/Allowed.antt =====
-- What an upload or a download that passes its checks was granted.
use sshw.Base.{Bool, true, false, Text, Option, some, ◌≡◌, ◌↔◌, arith, text_eq, get}
use sshw.Errors.{ok}
use sshw.Storage.Download.{LocalPath, check_download_destination}
use sshw.Safety.{allow}
use sshw.Sandbox.{allow as permit, Sandbox}
use sshw.Config.{SshwConfig}
use sshw.Access.{Target, get_server, select_account, account_decision, unwrap_or}
use sshw.Access.Transfers.{parent_path, check_get_path, checked_account, check_get_access}

-- The account is the one that was asked for or the server's default, it is configured, and the
-- sandbox allows it.
abbrev pub GrantsAccount : Text → Option Text → Sandbox → SshwConfig → Target → Type 0
GrantsAccount name user sandbox settings target =
    (get name settings.servers ≡ some target.server)
    × (target.user ≡ unwrap_or user target.server.default_user)
    × (get target.user target.server.accounts ≡ some target.account)
    × (account_decision sandbox name target.user target.server ≡ permit)

-- An atomic upload needs the directory in which it stages its file.
abbrev pub GrantsParent : Bool → Text → Sandbox → Type 0
GrantsParent false remote sandbox = Unit
GrantsParent true remote sandbox =
    (parent : Text) × (parent_path remote ≡ ok parent) × (sandbox.check_put parent ≡ permit)

-- A download is let through with a target exactly if the sandbox allows the remote path, the
-- destination may be written, and the account is granted.
pub check_get_access-Grants :
    (name : Text) (user : Option Text) (remote : Text) (local : LocalPath) (yes' : Bool)
    (sandbox : Sandbox) (settings : SshwConfig) (target : Target)
    → (check_get_access name user remote local yes' sandbox settings ≡ ok target) ↔ (
        (sandbox.check_get remote ≡ permit)
        × (check_download_destination local yes' ≡ ok tt)
        × GrantsAccount name user sandbox settings target)
unfolding check_get_access check_get_path checked_account get_server select_account account_decision
check_get_access-Grants name user remote local yes' sandbox settings target =
    (λ h. ground arith, λ h. ground arith)
