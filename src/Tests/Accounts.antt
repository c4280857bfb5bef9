-- ===== src/Tests/Accounts.antt =====
-- Runs of the account commands, and of the credential store in memory.
use sshw.Base.{true, false, codes, [], none, some, ◌≡◌, ◌⊎◌, arith}
use sshw.Errors.{ok}
use sshw.Home.{login, privilege}
use sshw.Home.Hash.{as_bytes}
use sshw.Home.Keys.{new_account_credential_key}
use sshw.Credentials.{purpose_key}
use sshw.Credentials.Session.{SessionOnlyStore, session_only_store}
use sshw.Credentials.Session.Keyed.{session-IsKeyed}
use sshw.Accounts.{AccountAddArgs, AccountRemoveArgs, Answers, Saving, password_arg}
use sshw.Accounts.Handlers.{World, add_account, remove_account}
use sshw.Accounts.Kept.{Lacks, IsWritten, remove_account_keeps}
use sshw.Accounts.Replaced.{Kept, add_account_keeps}
use sshw.Tests.Data.{web, admin, settings, config_json, shifted, namespace}

abbrev empty_store : SessionOnlyStore
empty_store = record {
  session_password = some (codes "fallback");
  privilege_password = none;
  values = [];
}

abbrev saving : Saving
saving = record {
  readable = true;
  fails = λ stage. false;
  revision = record { bytes = some (as_bytes (codes "old")) };
}

abbrev answers : Answers
answers = record {
  confirm_with_option = ok true;
  confirm = ok true;
  password = ok (codes "secret");
  password_stdin = ok (codes "piped");
}

abbrev world : World config_json session_only_store
world = record {
  disk = record { file = some (codes "old"); staged = false };
  credentials = empty_store;
  settings = settings;
}

abbrev remove_admin : AccountRemoveArgs
remove_admin = record { name = web; user = admin; yes_flag = true }

remove_account_keeps_example :
    ((remove_account config_json session_only_store remove_admin answers saving world).0.credentials
      ≡ world.credentials)
    ⊎ (IsWritten config_json session_only_store
          (remove_account config_json session_only_store remove_admin answers saving world).0
        × Lacks remove_admin.name remove_admin.user world.settings
            (remove_account config_json session_only_store remove_admin answers saving
              world).0.settings)
remove_account_keeps_example =
    remove_account_keeps config_json session_only_store remove_admin answers saving world

abbrev update_admin : AccountAddArgs
update_admin = record {
  name = web;
  user = admin;
  auth = password_arg;
  password_stdin = true;
  force = true;
}

other_purpose : ¬ (
    purpose_key privilege (codes "key") admin
    ≡ purpose_key login
        (new_account_credential_key shifted namespace login web admin (codes "1:2:3"))
        admin)
other_purpose h = ground arith

add_account_keeps_example :
    Kept config_json session_only_store session-IsKeyed privilege
      (codes "key")
      admin
      update_admin.name
      update_admin.user
      world
      (add_account config_json session_only_store shifted namespace
        (codes "1:2:3")
        update_admin
        answers
        saving
        world).0
add_account_keeps_example =
    add_account_keeps config_json session_only_store session-IsKeyed privilege (codes "key") admin
      shifted namespace (codes "1:2:3") update_admin answers saving world other_purpose
