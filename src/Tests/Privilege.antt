-- ===== src/Tests/Privilege.antt =====
-- Runs of the privilege commands.
use sshw.Base.{true, false, Text, codes, none, some, ◌≡◌, arith, []}
use sshw.Errors.{ok}
use sshw.Home.{login, privilege}
use sshw.Home.Hash.{as_bytes}
use sshw.Home.Keys.{new_account_credential_key}
use sshw.Config.{sudo}
use sshw.Credentials.{purpose_key}
use sshw.Credentials.Session.{session_only_store}
use sshw.Credentials.Session.Keyed.{session-IsKeyed}
use sshw.Accounts.{Answers, Saving}
use sshw.Accounts.Handlers.{World}
use sshw.Privilege.{PrivilegeSetArgs, PrivilegeClearArgs}
use sshw.Privilege.Set.{set_privilege}
use sshw.Privilege.Replaced.{KeptPrivilege, set_privilege_keeps}
use sshw.Tests.Data.{web, admin, settings, config_json, shifted, namespace}

abbrev prompts : Answers
prompts = record {
  confirm_with_option = ok true;
  confirm = ok true;
  password = ok (codes "secret");
  password_stdin = ok (codes "piped");
}

abbrev no_failure : Saving
no_failure = record {
  readable = true;
  fails = λ stage. false;
  revision = record { bytes = some (as_bytes (codes "old")) };
}

abbrev start : World config_json session_only_store
start = record {
  disk = record { file = some (codes "old"); staged = false };
  credentials = record { session_password = none; privilege_password = none; values = [] };
  settings = settings;
}

abbrev clear_default : PrivilegeClearArgs
clear_default = record { name = web; account = none; yes_flag = true }

abbrev set_root : PrivilegeSetArgs
set_root = record {
  name = web;
  account = some admin;
  method = sudo;
  user = codes "root";
  password_stdin = false;
  no_password = false;
  force = true;
}

login_key_is_other :
    (login_user : Text)
    → ¬ (
        purpose_key login (codes "key") admin
        ≡ purpose_key privilege
            (new_account_credential_key shifted namespace privilege web login_user (codes "1:2:3"))
            (codes "root"))
login_key_is_other login_user h = ground arith

set_privilege_keeps_example :
    (login_user : Text) × KeptPrivilege config_json session_only_store session-IsKeyed login
      (codes "key")
      admin
      set_root.name
      login_user
      start
      (set_privilege config_json session_only_store shifted namespace
        (codes "1:2:3")
        set_root
        prompts
        no_failure
        start).0
set_privilege_keeps_example =
    set_privilege_keeps config_json session_only_store session-IsKeyed login (codes "key") admin
      shifted namespace (codes "1:2:3") set_root prompts no_failure start login_key_is_other
