-- ===== src/Ssh/KnownHosts.antt =====
-- Known hosts (src/ssh/known_hosts.rs and the parts of src/ssh/ssh2_client.rs that use them):
-- reading the file, checking a server's key, and adding one. libssh2's table of hosts is a
-- parameter, and what a session answers about its host key is an argument.
pub mod Tables
pub mod Trusted
use sshw.Base.{
  ℕ, Bool, true, false, not, Text, codes, List, [], ◌∷◌, ◌++◌, Option, none, some, if◌then◌else◌,
  ◌==◌, same, text_eq, is_empty, is_some, split, starts_with, strip_suffix_char, trim, map,
}
use sshw.Errors.{
  ssh, auth, says, message, context, Error, Result, ok, err, map_err, ◌>>=◌, ◌>>◌, and_then,
}
use sshw.Config.{ServerConfig, plain_error}
use sshw.Storage.{Disk, Stage, settings_error, write_owner_only_atomic, read_failed}

-- `ssh2::CheckResult` and `ssh2::HostKeyType`.
pub data CheckResult : Type 0 where
  matched mismatch not_found failure : CheckResult

pub data HostKeyType : Type 0 where
  unknown rsa dss ecdsa256 ecdsa384 ecdsa521 ed25519 : HostKeyType

-- `ssh2::KnownHosts`, a table of hosts.
pub record HostTable : Type 1 where
  pub Hosts : Type 0
  pub Host : Type 0
  pub no_hosts : Hosts
  pub read_str : Text → Hosts → Result Hosts
  pub check_port : Hosts → Text → ℕ → Text → CheckResult
  pub add : Text → Text → HostKeyType → Hosts → Result Hosts
  pub hosts : Hosts → Result (List Host)
  pub write_string : Host → Result Text
  pub key_decodes : Host → Bool

-- What a connected session answers: the host key with its type, and its hash in base 64.
pub record HostSession : Type 0 where
  pub host_key : Option (Text × HostKeyType)
  pub host_key_hash : Option Text

-- `HostKeyInfo` of src/ssh/mod.rs.
pub record HostKeyInfo : Type 0 where
  pub algorithm : Text
  pub fingerprint_sha256 : Text

unfoldable pub host_key_algorithm : HostKeyType → Text
host_key_algorithm unknown = codes "unknown"
host_key_algorithm rsa = codes "ssh-rsa"
host_key_algorithm dss = codes "ssh-dss"
host_key_algorithm ecdsa256 = codes "ecdsa-sha2-nistp256"
host_key_algorithm ecdsa384 = codes "ecdsa-sha2-nistp384"
host_key_algorithm ecdsa521 = codes "ecdsa-sha2-nistp521"
host_key_algorithm ed25519 = codes "ssh-ed25519"

unfoldable pub ensure_supported_host_key : HostKeyType → Result (Unit {0})
ensure_supported_host_key unknown =
    err (plain_error (codes "unsupported host key type from server"))
ensure_supported_host_key _ = ok tt

unfoldable pub session_key : HostSession → Result (Text × HostKeyType)
session_key session = elim (session.host_key) [
  | none ↦ err (plain_error (codes "server did not provide a host key"))
  | some key ↦ ok key
]

fingerprint_of : HostKeyType → Option Text → Result HostKeyInfo
unfolding host_key_algorithm
fingerprint_of key_type none = err (plain_error (codes "could not compute host key fingerprint"))
fingerprint_of key_type (some hash) = ok (record {
  algorithm = host_key_algorithm key_type;
  fingerprint_sha256 = codes "SHA256:" ++ hash;
})

unfoldable pub host_key_info : HostSession → Result HostKeyInfo
unfolding session_key ensure_supported_host_key fingerprint_of
host_key_info session = session_key session >>= λ (key, key_type).
    ensure_supported_host_key key_type >> fingerprint_of key_type session.host_key_hash

unfoldable pub known_host_name : (ℕ → Text) → Text → ℕ → Text
known_host_name decimal host port =
    if port == 22 then host else b'[' ∷ (host ++ (codes "]:" ++ decimal port))

abbrev pub unknown_host_key_error : Error
unknown_host_key_error = plain_error (codes "host key is not trusted; run `sshw trust` first")

unfoldable pub known_host_verification_result : CheckResult → Result (Unit {0})
known_host_verification_result matched = ok tt
known_host_verification_result not_found = err unknown_host_key_error
known_host_verification_result mismatch =
    err (plain_error (codes "host key verification failed; trusted key changed"))
known_host_verification_result failure = err (plain_error (codes "host key verification failed"))

-- A line without the carriage return at its end.
abbrev without_return : Text → Text
without_return line = elim (strip_suffix_char b'\r' line) [ none ↦ line | some rest ↦ rest ]

-- The parts that `split` makes, without an empty last one.
abbrev without_last : List Text → List Text
without_last [] = []
without_last (line ∷ []) = if is_empty line then [] else line ∷ []
without_last (line ∷ next ∷ lines) = line ∷ without_last (next ∷ lines)

-- `str::lines`
unfoldable pub lines : Text → List Text
unfolding split strip_suffix_char is_empty
lines content = map without_return (without_last (split (λ c. c == b'\n') content))

unfoldable pub is_skipped : Text → Bool
unfolding trim is_empty starts_with
is_skipped line = if is_empty (trim line) then true else starts_with (b'#' ∷ []) (trim line)

-- What the file holds, if it can be read.
abbrev pub content_of : Bool → Disk → Option Text
content_of readable disk = if readable then disk.file else none

module _ (table : HostTable) where
  parsed_line : Result table.Hosts → Result table.Hosts
  unfolding settings_error
  parsed_line (ok hosts) = ok hosts
  parsed_line (err e) = err (settings_error (codes "failed to parse known_hosts file") e)

  unfoldable pub read_lines : List Text → table.Hosts → Result table.Hosts
  unfolding is_skipped parsed_line
  read_lines [] hosts = ok hosts
  read_lines (line ∷ rest) hosts =
      let skipped = read_lines rest hosts in
      if is_skipped line
      then skipped
      else parsed_line (table.read_str (line ++ b'\n' ∷ []) hosts) >>= λ hosts.
          read_lines rest hosts

  -- The content, or nothing if it cannot be read.
  unfoldable pub read_known_hosts_file : Option Text → table.Hosts → Result table.Hosts
  unfolding lines read_lines settings_error
  read_known_hosts_file none hosts =
      err (settings_error (codes "failed to read known_hosts file") read_failed)
  read_known_hosts_file (some content) hosts = read_lines (lines content) hosts

  unfoldable pub check_keys : List table.Host → Result (Unit {0})
  unfolding settings_error
  check_keys [] = ok tt
  check_keys (host ∷ hosts) =
      let rest = check_keys hosts in
      if table.key_decodes host
      then rest
      else err (
          settings_error (codes "invalid host key data in known_hosts file")
            (message (says (codes "invalid base 64")) ∷ []))

  -- `LocalKnownHosts::load` and `has_entry`
  unfoldable pub load : Option Text → Result table.Hosts
  unfolding read_known_hosts_file check_keys
  load content = read_known_hosts_file content table.no_hosts >>= λ hosts.
      table.hosts hosts >>= λ entries. check_keys entries >> ok hosts

  unfoldable pub has_entry : table.Hosts → Text → ℕ → Result Bool
  has_entry hosts host port =
      elim (table.check_port hosts host port (codes "sshw local endpoint lookup")) [
        | matched ↦ ok true
        | mismatch ↦ ok true
        | not_found ↦ ok false
        | failure ↦ err (plain_error (codes "failed to inspect the local known_hosts entry"))
      ]

  unfoldable pub print_hosts : List table.Host → Result Text
  print_hosts [] = ok []
  print_hosts (host ∷ hosts) =
      table.write_string host >>= λ line. print_hosts hosts >>= λ rest. ok (line ++ rest)

  -- The text that `write_known_hosts_file` writes.
  unfoldable pub known_hosts_text : table.Hosts → Result Text
  unfolding print_hosts
  known_hosts_text hosts = table.hosts hosts >>= print_hosts

  written : Result (Unit {0}) → Result (Unit {0})
  written (ok u) = ok tt
  written (err e) = err (context (says (codes "failed to write known_hosts file")) ∷ e)

  unfoldable pub write_known_hosts_file :
      (Stage → Bool) → table.Hosts → Disk → Disk × Result (Unit {0})
  unfolding known_hosts_text written
  write_known_hosts_file fails hosts disk =
      and_then (disk, known_hosts_text hosts)
        (λ text disk.
          let (r, after) = write_owner_only_atomic fails text disk in (after, written r))

  -- The table of the hosts that are known, with none if there is no file.
  unfoldable pub hosts_before : Bool → Disk → Result table.Hosts
  unfolding read_known_hosts_file
  hosts_before readable disk =
      if is_some disk.file
      then read_known_hosts_file (content_of readable disk) table.no_hosts
      else ok table.no_hosts

  -- `decimal` prints a port.
  unfoldable pub add_host :
      (ℕ → Text)
      → (Stage → Bool)
      → ServerConfig
      → Text
      → HostKeyType
      → table.Hosts
      → Disk
      → Disk × Result (Unit {0})
  unfolding known_host_name write_known_hosts_file
  add_host decimal fails server key key_type hosts disk =
      and_then
        (disk, table.add (known_host_name decimal server.host server.port) key key_type hosts)
        (λ updated. write_known_hosts_file fails updated)

  -- The `match` on the check.
  unfoldable pub trust_checked :
      CheckResult
      → HostKeyInfo
      → (Disk → Disk × Result (Unit {0}))
      → Disk
      → Disk × Result HostKeyInfo
  trust_checked matched info add_it disk = (disk, ok info)
  trust_checked mismatch info add_it disk =
      (disk, err (plain_error (codes "host key changed; refusing to overwrite trusted key")))
  trust_checked failure info add_it disk =
      (disk, err (plain_error (codes "failed to check known_hosts")))
  trust_checked not_found info add_it disk = and_then (add_it disk) (λ u after. (after, ok info))

  unfoldable pub same_fingerprint : Text → HostKeyInfo → Result (Unit {0})
  same_fingerprint expected info =
      if same info.fingerprint_sha256 expected
      then ok tt
      else err (plain_error (codes "host key fingerprint changed before trust"))

  -- `Ssh2Client::trust_host`, behind the connection.
  unfoldable pub trust_host :
      (ℕ → Text)
      → (Stage → Bool)
      → Bool
      → HostSession
      → ServerConfig
      → Text
      → Disk
      → Disk × Result HostKeyInfo
  unfolding session_key ensure_supported_host_key host_key_info hosts_before add_host trust_checked
      same_fingerprint
  trust_host decimal fails readable session server expected disk =
      and_then (disk, session_key session)
        (λ (key, key_type) disk.
          and_then (disk, ensure_supported_host_key key_type)
            (λ u disk.
              and_then (disk, host_key_info session)
                (λ info disk.
                  and_then (disk, same_fingerprint expected info)
                    (λ u disk.
                      and_then (disk, hosts_before readable disk)
                        (λ hosts disk.
                          trust_checked (table.check_port hosts server.host server.port key) info
                            (add_host decimal fails server key key_type hosts) disk)))))

  unfoldable pub verify_known_host : Bool → HostSession → ServerConfig → Disk → Result (Unit {0})
  unfolding session_key read_known_hosts_file known_host_verification_result
  verify_known_host readable session server disk = session_key session >>= λ (key, key_type).
      if is_some disk.file
      then (read_known_hosts_file (content_of readable disk) table.no_hosts >>= λ hosts.
          known_host_verification_result (table.check_port hosts server.host server.port key))
      else err unknown_host_key_error
