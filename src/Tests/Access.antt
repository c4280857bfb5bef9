-- ===== src/Tests/Access.antt =====
-- Runs of the checks before a remote action.
use sshw.Base.{true, false, codes, [], ◌∷◌, none, some, ◌≡◌, ◌↔◌}
use sshw.Errors.{ok}
use sshw.Storage.Download.{LocalPath, directory, absent}
use sshw.Safety.{allow}
use sshw.Policy.{enabled}
use sshw.Policy.Explain.{explain_command, explain_path, explain_account}
use sshw.Sandbox.{allow as permit, Sandbox, policy_only_sandbox, sandbox_from_policy}
use sshw.Sandbox.Agreement.{is_allow, sandbox-explain}
use sshw.Access.{Target, check_run_access, at_once, collect}
use sshw.Access.Granted.{Granted, check_run_access-Granted}
use sshw.Access.Preflight.{first_report, check_run_access-first_report}
use sshw.Tests.Data.{web, deploy, admin, deploy_account, web_server, settings, rules}

abbrev guarded : Sandbox
guarded = policy_only_sandbox rules

abbrev target : Target
target = record { server = web_server; user = deploy; account = deploy_account }

abbrev log_file : LocalPath
log_file = record { try_exists = some false; entry = absent; ancestors = absent ∷ directory ∷ [] }

check_run_access-Granted_example :
    (check_run_access at_once web (codes "git status -s") none false guarded settings tt
      ≡ (tt, ok target))
    ↔ Granted web (codes "git status -s") none false guarded settings target
check_run_access-Granted_example =
    check_run_access-Granted web (codes "git status -s") none false guarded settings target

check_run_access-first_report_example :
    first_report
      (check_run_access collect web (codes "sudo rm -rf /") (some admin) false guarded settings [])
    ≡ (check_run_access at_once web
        (codes "sudo rm -rf /")
        (some admin)
        false
        guarded
        settings
        tt).1
check_run_access-first_report_example =
    check_run_access-first_report web (codes "sudo rm -rf /") (some admin) false guarded settings

sandbox-explain_example :
    (is_allow ((sandbox_from_policy (enabled rules)).check_command (codes "uptime"))
      ≡ (explain_command (enabled rules) (codes "uptime")).allowed)
    × (is_allow ((sandbox_from_policy (enabled rules)).check_put (codes "/srv/app/x"))
        ≡ (explain_path (enabled rules) (codes "/srv/app/x") true).allowed)
    × (is_allow ((sandbox_from_policy (enabled rules)).check_get (codes "/srv/app/x"))
        ≡ (explain_path (enabled rules) (codes "/srv/app/x") false).allowed)
    × (is_allow ((sandbox_from_policy (enabled rules)).check_account web admin false)
        ≡ (explain_account (enabled rules) web admin false).allowed)
sandbox-explain_example =
    sandbox-explain (enabled rules) (codes "uptime") (codes "/srv/app/x") web admin false
