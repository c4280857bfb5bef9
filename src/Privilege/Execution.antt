-- ===== src/Privilege/Execution.antt =====
-- Running a command as another account (src/cli.rs): the stored password, the command line that the
-- remote shell gets, and the channel that the password takes. The nonce of an execution, which the
-- randomised hasher makes, is a parameter, and so is the text of the recovery step in an error.
pub mod Quoting
use sshw.Base.{ℕ, Text, codes, List, [], ◌∷◌, ◌++◌, Option, none, some, if◌then◌else◌, ◌==◌}
use sshw.Errors.{
  config, auth, says, context, privilege_missing, Error, Result, err, ok, app_error,
  with_error_kind, ◌>>=◌, ◌>>◌,
}
use sshw.Home.{privilege}
use sshw.Config.{AccountConfig, PrivilegeConfig, PrivilegeMethod, sudo, su}
use sshw.Credentials.{CredentialStore}
use sshw.Privilege.{validate_privilege_password}
use sshw.Ssh.Framing.{su_begin_marker, su_end_prefix}

pub record PrivilegedExecution : Type 0 where
  pub command : Text
  pub stdin : Option Text
  pub pty_password : Option Text
  pub pty_marker_nonce : Option Text
  pub redact_secret : Option Text

-- `replace('\'', "'\"'\"'")`
unfoldable pub escape_quotes : Text → Text
escape_quotes [] = []
escape_quotes (c ∷ s) =
    let rest = escape_quotes s in if c == b'\'' then codes "'\"'\"'" ++ rest else c ∷ rest

unfoldable pub shell_quote : Text → Text
unfolding escape_quotes
shell_quote value = b'\'' ∷ (escape_quotes value ++ b'\'' ∷ [])

-- The fixed text of the script of `sudo_command`, before each of the two users.
abbrev pub sudo_validation : Text
sudo_validation =
    codes
      "IFS= read -r sshw_sudo_password || exit 1; printf '%s\\n' \"$sshw_sudo_password\" | sudo -S -p '' -u "

abbrev pub sudo_check : Text
sudo_check =
    codes
      " -v; sshw_sudo_status=$?; unset sshw_sudo_password; [ \"$sshw_sudo_status\" -eq 0 ] || exit \"$sshw_sudo_status\"; sudo -n -p '' -u "

-- The script that `sudo_command` quotes.
unfoldable pub sudo_script : Text → Text → Text
unfolding shell_quote
sudo_script command user =
    sudo_validation
    ++ (shell_quote user
        ++ (sudo_check
            ++ (shell_quote user
                ++ (codes " -- sh -lc " ++ (shell_quote command ++ codes " < /dev/null")))))

unfoldable pub sudo_command : Text → Text → Text
unfolding sudo_script shell_quote
sudo_command command user = codes "sh -c " ++ shell_quote (sudo_script command user)

-- The `inner` of `su_command`.
unfoldable pub su_script : Text → Text → Text
unfolding shell_quote su_begin_marker su_end_prefix
su_script command marker_nonce =
    codes "printf '"
    ++ (su_begin_marker marker_nonce
        ++ (codes "\\n'; sh -c "
            ++ (shell_quote command
                ++ (codes "; __sshw_ec=$?; printf '"
                    ++ (su_end_prefix marker_nonce ++ codes "%d__\\n' \"$__sshw_ec\"")))))

unfoldable pub su_command : Text → Text → Text → Text
unfolding su_script shell_quote
su_command command user marker_nonce =
    codes "LC_ALL=C su - "
    ++ (shell_quote user ++ (codes " -c " ++ shell_quote (su_script command marker_nonce)))

module _ (store : CredentialStore) where
  loaded : Result Text → Result Text
  loaded (err e) =
      err (with_error_kind auth (context (says (codes "failed to load privilege credential")) ∷ e))
  loaded (ok password) = ok password

  fetch_credential : Option Text → Text → store.State → Result Text
  unfolding loaded validate_privilege_password
  fetch_credential none user state =
      err (app_error config (says (codes "password privilege requires a credential")))
  fetch_credential (some credential) user state =
      loaded (store.get_password_for privilege credential user state) >>= λ password.
      validate_privilege_password password >> ok password

  unfoldable pub fetch_validated_privilege_password : PrivilegeConfig → store.State → Result Text
  unfolding fetch_credential
  fetch_validated_privilege_password settings state =
      fetch_credential settings.credential settings.user state

  unfoldable pub sudo_execution : Text → PrivilegeConfig → store.State → Result PrivilegedExecution
  unfolding fetch_validated_privilege_password
  sudo_execution command settings state =
      fetch_validated_privilege_password settings state >>= λ password. ok (record {
        command = sudo_command command settings.user;
        stdin = some (password ++ b'\n' ∷ []);
        pty_password = none;
        pty_marker_nonce = none;
        redact_secret = some password;
      })

  unfoldable pub su_execution :
      Text → Text → PrivilegeConfig → store.State → Result PrivilegedExecution
  unfolding fetch_validated_privilege_password
  su_execution marker_nonce command settings state =
      fetch_validated_privilege_password settings state >>= λ password. ok (record {
        command = su_command command settings.user marker_nonce;
        stdin = none;
        pty_password = some password;
        pty_marker_nonce = some marker_nonce;
        redact_secret = some password;
      })

  execution_of :
      PrivilegeMethod → Text → Text → PrivilegeConfig → store.State → Result PrivilegedExecution
  unfolding sudo_execution su_execution
  execution_of sudo marker_nonce command settings state = sudo_execution command settings state
  execution_of su marker_nonce command settings state =
      su_execution marker_nonce command settings state

  with_privilege :
      Text → Text → Text → Text → Option PrivilegeConfig → store.State → Result PrivilegedExecution
  unfolding execution_of
  with_privilege marker_nonce server_name login_user command none state =
      err (app_error config (privilege_missing server_name login_user))
  with_privilege marker_nonce server_name login_user command (some settings) state =
      execution_of settings.method marker_nonce command settings state

  unfoldable pub resolve_privileged_execution :
      Text → Text → Text → AccountConfig → Text → store.State → Result PrivilegedExecution
  unfolding with_privilege
  resolve_privileged_execution marker_nonce server_name login_user account command state =
      with_privilege marker_nonce server_name login_user command account.privilege state
