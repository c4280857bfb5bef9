-- ===== src/Tests/Policy.antt =====
-- Runs of the policy.
use sshw.Base.{
  true, false, Text, codes, [], ◌∷◌, some, ◌≡◌, ◌≢◌, ◌↔◌, inl, inr, refl, arith, any, Member,
  is_empty, trim, trim_matches, trim_start_matches, trim_end_matches, is_whitespace,
  is_path_separator, text_eq,
}
use sshw.Errors.{ok}
use sshw.Storage.{FileView, contents, exists, Disk}
use sshw.Policy.{PolicyRules, PolicyFile, default_policy_file}
use sshw.Policy.Commands.{allows_command, contains_shell_metacharacters, is_shell_metacharacter}
use sshw.Policy.Commands.Permits.{Permits, allows_command-Permits}
use sshw.Policy.Paths.{path_is_allowed, has_parent_traversal}
use sshw.Policy.Paths.Containment.{Covers, path_is_allowed-Covers}
use sshw.Policy.File.{deserialize_policy}
use sshw.Tests.Data.{rules, policy_json}

abbrev chained : PolicyRules
chained = record {
  allow_commands = codes "ls *" ∷ codes " a;b " ∷ [];
  allow_put_paths = [];
  allow_get_paths = [];
  allow_accounts = [];
}

allows_command-Permits_example : (allows_command rules (codes "git status -s") ≡ true) ↔ (
    (raw : Text) × Member raw rules.allow_commands
    × (is_empty (trim raw) ≡ false)
    × Permits (trim raw) (trim (codes "git status -s")))
allows_command-Permits_example = allows_command-Permits rules (codes "git status -s")

has_metacharacter : contains_shell_metacharacters (trim (codes "a;b")) ≡ true
unfolding contains_shell_metacharacters is_shell_metacharacter any trim trim_matches
    trim_start_matches trim_end_matches is_whitespace is_empty
has_metacharacter = refl

chained_allows : allows_command chained (codes "a;b") ≡ true
chained_allows = (allows_command-Permits chained (codes "a;b")).1 (
  codes " a;b ",
  inr (inl refl),
  unfold trim trim_matches trim_start_matches trim_end_matches is_whitespace is_empty in refl,
  Permits.spelled
      (unfold trim trim_matches trim_start_matches trim_end_matches is_whitespace is_empty in refl),
)

path_is_allowed-Covers_example :
    (path_is_allowed rules.allow_put_paths (codes "/srv/app/x") ≡ true) ↔ (
      (has_parent_traversal (codes "/srv/app/x") ≡ false)
      × ((entry : Text) × Member entry rules.allow_put_paths × Covers entry (codes "/srv/app/x")))
path_is_allowed-Covers_example = path_is_allowed-Covers rules.allow_put_paths (codes "/srv/app/x")

slash : is_path_separator b'/' ≡ true
unfolding is_path_separator
slash = refl

abbrev policy_file : FileView
policy_file = record { read = contents (codes "uptime"); metadata = exists }

abbrev upgraded : PolicyFile
upgraded = record default_policy_file { allow_commands = codes "uptime" ∷ [] }

upgraded_lem : deserialize_policy policy_json (codes "uptime") ≡ ok upgraded
unfolding deserialize_policy
upgraded_lem = refl

abbrev changed_disk : Disk
changed_disk = record { file = some (codes "new"); staged = false }

is_changed : changed_disk.file ≢ some (codes "old")
is_changed h = ground arith
