-- ===== src/Safety.antt =====
-- The safety rails (src/safety.rs): the decision for a command and for a remote path.
pub mod Shell
pub mod Tokens
pub mod Hazards
pub mod WritePaths
use sshw.Base.{
  Bool, true, false, ◌||◌, Text, codes, List, [], ◌∷◌, if◌then◌else◌, any, to_ascii_lowercase,
}
use sshw.Policy.Paths.{path_within}
use sshw.Safety.Shell.{has_sudo_command}
use sshw.Safety.Tokens.{
  shellish_tokens, has_rm_recursive_force, has_recursive_command, has_adjacent_tokens,
  writes_to_etc,
}

-- What a block tells the user, with the path that it shows.
pub data BlockReason : Type 0 where
  recursive_force_delete sudo_command recursive_chmod recursive_chown pm2_delete : BlockReason
  write_to_etc : BlockReason
  write_to : Text → BlockReason

pub data SafetyDecision : Type 0 where
  allow : SafetyDecision
  block : BlockReason → SafetyDecision

classify_lowered : Text → SafetyDecision
classify_lowered lowered =
    let tokens = shellish_tokens lowered in
    if has_rm_recursive_force tokens
    then block recursive_force_delete
    else if has_sudo_command lowered
    then block sudo_command
    else if has_recursive_command tokens (codes "chmod")
    then block recursive_chmod
    else if has_recursive_command tokens (codes "chown")
    then block recursive_chown
    else if has_adjacent_tokens tokens (codes "pm2") (codes "delete")
    then block pm2_delete
    else if writes_to_etc lowered
    then block write_to_etc
    else allow

unfoldable pub classify_command : Text → Bool → SafetyDecision
unfolding classify_lowered
classify_command command yes' =
    if yes' then allow else classify_lowered (to_ascii_lowercase command)

abbrev pub system_paths : List Text
system_paths =
    codes "/etc"
    ∷ codes "/usr"
    ∷ codes "/bin"
    ∷ codes "/sbin"
    ∷ codes "/lib"
    ∷ codes "/lib64"
    ∷ codes "/boot"
    ∷ codes "/root"
    ∷ []

unfoldable pub classify_remote_write_path : Text → Bool → SafetyDecision
classify_remote_write_path path yes' =
    if yes'
    then allow
    else if any (λ system_path. path_within system_path path) system_paths
    then block (write_to path)
    else allow
