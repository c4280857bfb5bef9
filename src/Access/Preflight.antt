-- ===== src/Access/Preflight.antt =====
-- The preflight of a run agrees with the run.
use sshw.Base.{Bool, Text, List, [], ◌∷◌, Option, ◌≡◌, arith, text_eq}
use sshw.Errors.{Error, Result, err}
use sshw.Sandbox.{Sandbox}
use sshw.Config.{SshwConfig}
use sshw.Access.{get_server, select_account, account_decision, at_once, collect, check_run_access}

-- The first thing that preflight reports, or what it ends with.
abbrev pub first_report {ℓ} : {A : Type ℓ} → List Error × Result A → Result A
first_report ([], r) = r
first_report (e ∷ errors, r) = err e

-- The error with which a run fails is the first that its preflight reports, and a preflight with
-- nothing to report selects the target of the run.
pub check_run_access-first_report :
    (name command : Text) (user : Option Text) (yes' : Bool) (sandbox : Sandbox)
    (settings : SshwConfig)
    → first_report (check_run_access collect name command user yes' sandbox settings [])
      ≡ (check_run_access at_once name command user yes' sandbox settings tt).1
unfolding check_run_access at_once collect get_server select_account account_decision
check_run_access-first_report name command user yes' sandbox settings = ground arith
