-- ===== src/PolicyChange.antt =====
-- The commands that change the rules of a policy (src/cli/policy_cmd.rs, `change_rule`), with the
-- paths that they are given (src/cli/transfer.rs, `decode_remote_path`).
pub mod Entries
pub mod Monotone
pub mod Handler
use sshw.Base.{
  ℕ, Bool, true, false, not, ◌&&◌, ◌||◌, ◌==◌, Text, codes, List, [], ◌∷◌, ◌++◌, Option, none, some,
  if◌then◌else◌, any, filter, same, text_eq, trim, trim_end_matches, is_empty, strip_prefix,
  starts_with,
}
use sshw.Errors.{config, policy, says, Result, ok, err, app_error, ◌>>=◌, ◌>>◌}
use sshw.Config.{SshwConfig}
use sshw.Access.{get_server, select_account}
use sshw.Policy.{AccountRule, PolicyFile}
use sshw.Policy.Paths.{has_parent_traversal, is_drive_absolute, trim_end_slashes}

pub data PolicyRule : Type 0 where
  command put get : Text → PolicyRule
  account : Text → Text → PolicyRule

pub record RemotePath : Type 0 where
  pub value : Text
  pub explicit_literal : Bool

unfoldable pub is_remote_absolute : Text → Bool
is_remote_absolute path =
    starts_with (codes "/") path || (starts_with (codes "\\\\") path || is_drive_absolute path)

unfoldable pub decode_remote_path : Text → Result RemotePath
unfolding is_remote_absolute
decode_remote_path path = elim (strip_prefix (codes "remote:") path) [
  | none ↦ ok (record { value = path; explicit_literal = false })
  | some value ↦
      if is_remote_absolute value
      then ok (record { value = value; explicit_literal = true })
      else err (
          app_error config
            (says (codes "remote path literal must contain an absolute path after 'remote:'")))
]

unfoldable pub policy_remote_path : Text → Result Text
unfolding decode_remote_path
policy_remote_path path = decode_remote_path path >>= λ remote. ok remote.value

-- `push` of a value that is not in the list, or `retain` of the others.
unfoldable pub change_entries : {A : Type 0} → (A → A → Bool) → Bool → A → List A → List A
change_entries eq true value entries =
    if any (λ entry. eq entry value) entries then entries else entries ++ value ∷ []
change_entries eq false value entries = filter (λ entry. not (eq entry value)) entries

-- The tests of an entry that is added.
unfoldable pub check_entry : Bool → Text → Result (Unit {0})
check_entry is_path value =
    if is_empty (trim value) || same (trim value) (codes "*")
    then err (
        app_error policy (
          says (
            codes
              "empty and '*' policy entries do not grant access; specify a program, exact command, or path")))
    else if is_path && is_empty (trim_end_slashes (trim value))
    then err (
        app_error policy (
          says (
            codes
              "root-only policy paths ('/' or repeated slashes) do not grant access; specify a directory such as '/srv/app' or '/var/log'")))
    else if is_path && has_parent_traversal value
    then err (
        app_error policy (
          says (
            codes
              "policy paths containing '..' cannot grant access; use a normalized remote path")))
    else ok tt

check_added : Bool → Bool → Text → Result (Unit {0})
check_added true is_path value = check_entry is_path value
check_added false is_path value = ok tt

-- An account that is added is one of the active configuration.
check_new_account : Bool → Result SshwConfig → Text → Text → Result (Unit {0})
check_new_account false loaded server user = ok tt
check_new_account true loaded server user = loaded >>= λ settings.
    get_server settings server >>= λ selected.
    select_account server selected (some user) >>= λ found. ok tt

unfoldable pub same_account : AccountRule → AccountRule → Bool
same_account entry other = same entry.server other.server && same entry.user other.user

-- `loaded` is what loading the active configuration answers.
unfoldable pub change_rule : Result SshwConfig → PolicyFile → PolicyRule → Bool → Result PolicyFile
unfolding policy_remote_path check_added check_new_account change_entries check_entry same_account
change_rule loaded file (account server user) adding =
    check_new_account adding loaded server user
    >> ok (record file {
      allow_accounts =
          change_entries same_account adding (record { server = server; user = user })
            file.allow_accounts;
    })
change_rule loaded file (command value) adding =
    check_added adding false value
    >> ok (record file {
      allow_commands = change_entries (λ a b. same a b) adding value file.allow_commands;
    })
change_rule loaded file (put path) adding = policy_remote_path path >>= λ value.
    check_added adding true value
    >> ok (record file {
      allow_put_paths = change_entries (λ a b. same a b) adding value file.allow_put_paths;
    })
change_rule loaded file (get path) adding = policy_remote_path path >>= λ value.
    check_added adding true value
    >> ok (record file {
      allow_get_paths = change_entries (λ a b. same a b) adding value file.allow_get_paths;
    })
