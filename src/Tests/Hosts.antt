-- ===== src/Tests/Hosts.antt =====
-- Runs of known hosts, connecting, sending a file, quoting for the remote shell, and the server
-- commands.
use sshw.Base.{
  ℕ, Bool, true, false, Text, codes, List, [], ◌∷◌, ◌++◌, Option, none, some, ◌≡◌, ◌⊎◌, ◌↔◌, inl,
  inr, refl, arith, length, map, get, same, text_eq, if◌then◌else◌, ltb, Bool-cases, ap, append-nil,
}
use sshw.Errors.{Result, ok, err}
use sshw.Home.Hash.{as_bytes}
use sshw.Config.{ServerConfig}
use sshw.Storage.{Disk}
use sshw.Credentials.Session.{SessionOnlyStore, session_only_store}
use sshw.Accounts.{Answers, Saving, agent_arg}
use sshw.Accounts.Handlers.{World}
use sshw.Ssh.Channel.{Bytes}
use sshw.Ssh.KnownHosts.{
  CheckResult, matched, not_found, ed25519, HostTable, HostSession, HostKeyInfo, trust_host,
  verify_known_host,
}
use sshw.Ssh.KnownHosts.Trusted.{IsKnown, IsAdded, verify_known_host-IsKnown, trust_host-IsAdded}
use sshw.Ssh.Connection.{
  password, AuthAnswers, connect_verified_authenticated, applied_timeout, offers-IsKnown,
}
use sshw.Ssh.Transfer.{WriteTurn, CopyTurn, Completion}
use sshw.Ssh.Transfer.Whole.{Reads}
use sshw.Ssh.Atomic.{
  confirmed, Reply, UploadAnswers, Uploading, UploadEnd, uploaded, upload_failed, upload,
  before_upload,
}
use sshw.Ssh.Atomic.Preserved.{Reported, upload-Reported}
use sshw.Privilege.Execution.{sudo_validation, sudo_check, sudo_script, su_script, su_command}
use sshw.Privilege.Execution.Quoting.{
  bare, sh_words, literal, marks, su_command-words, sudo_script-marks,
}
use sshw.Servers.{AddArgs}
use sshw.Servers.Trust.{HostKeyClient, TrustAnswers, trust_server, trust_server_confirmed}
use sshw.Tests.Data.{web, admin, web_server, settings, config_json}

-- A table that holds keys only, one on each line.
abbrev check_key : List Text → Text → CheckResult
check_key [] key = not_found
check_key (host ∷ hosts) key = if same host key then matched else check_key hosts key

abbrev table : HostTable
table = record {
  Hosts = List Text;
  Host = Text;
  no_hosts = [];
  read_str = λ line hosts. ok (line ∷ hosts);
  check_port = λ hosts host port key. check_key hosts key;
  add = λ name key key_type hosts. ok (key ∷ hosts);
  hosts = λ hosts. ok hosts;
  write_string = λ host. ok host;
  key_decodes = λ host. true;
}

abbrev key : Text
key = codes "key" ++ b'\n' ∷ []

abbrev session : HostSession
session = record { host_key = some (key, ed25519); host_key_hash = some (codes "hash") }

abbrev known_disk : Disk
known_disk = record { file = some key; staged = false }

verify_known_host-IsKnown_example :
    (verify_known_host table true session web_server known_disk ≡ ok tt)
    ↔ IsKnown table true session web_server known_disk
verify_known_host-IsKnown_example =
    verify_known_host-IsKnown table true session web_server known_disk

abbrev empty_disk : Disk
empty_disk = record { file = none; staged = false }

trust_host-IsAdded_example :
    ((trust_host table
        (λ port. [])
        (λ stage. false)
        true
        session
        web_server
        (codes "SHA256:hash")
        empty_disk).0.file
      ≡ empty_disk.file)
    ⊎ IsAdded table
        (λ port. [])
        (λ stage. false)
        true
        session
        web_server
        (codes "SHA256:hash")
        empty_disk
        (trust_host table
          (λ port. [])
          (λ stage. false)
          true
          session
          web_server
          (codes "SHA256:hash")
          empty_disk).0.file
trust_host-IsAdded_example =
    trust_host-IsAdded table (λ port. []) (λ stage. false) true session web_server
      (codes "SHA256:hash") empty_disk

abbrev auth_answers : AuthAnswers
auth_answers = record { userauth = ok tt; authenticated = true }

offers-IsKnown_example :
    ((connect_verified_authenticated table
        (ok session)
        true
        web_server
        known_disk
        (password (codes "secret"))
        admin
        auth_answers).0
      ≡ [])
    ⊎ ((s : HostSession) × (ok session ≡ ok s) × IsKnown table true s web_server known_disk)
offers-IsKnown_example =
    offers-IsKnown table (ok session) true web_server known_disk (password (codes "secret")) admin
      auth_answers

timeout_set : applied_timeout (some 5000000) 1500000 ≡ ok 3
unfolding applied_timeout
timeout_set = refl

-- A file of two bytes, which the channel takes one by one.
abbrev write_one : WriteTurn
write_one = record { deadline = ok tt; write = ok 1 }

abbrev file : Bytes
file = codes "ab"

abbrev announced : ℕ
announced = 2

abbrev read_two : ℕ → Result Bytes
read_two n = if ltb n 2 then err [] else ok file

abbrev copy_turns : List CopyTurn
copy_turns = record { deadline = ok tt; read = read_two; writes = write_one ∷ write_one ∷ [] } ∷ []

abbrev completion : Completion
completion = record { handshake = ok tt; exit_signal = none; error_message = none; exit_status = 0 }

file_read : Reads file copy_turns
file_read n bytes h = elim (Bool-cases (ltb n 2)) [
  | inl e ↦ absurd (ground arith)
  | inr e ↦
      let same_bytes : file ≡ bytes = ground arith in
      (ground (arith, ap length same_bytes), [], ground (arith, append-nil bytes), tt)
]

abbrev done : Reply
done = record { performed = true; answer = ok tt }

-- The close of the temporary file fails, and then it is removed.
abbrev upload_answers : UploadAnswers
upload_answers = record {
  temporary_name = ok tt;
  sftp_deadline = ok tt;
  sftp = ok tt;
  create_deadline = ok tt;
  open_mode = done;
  copy = copy_turns;
  stat_deadline = ok tt;
  stat_size = ok (some 2);
  mode_deadline = ok tt;
  setstat = ok tt;
  close_deadline = ok tt;
  close = err [];
  rename_deadline = ok tt;
  posix_rename = done;
  unlink = done;
}

abbrev closing : UploadAnswers
closing = record upload_answers { close = ok tt }

abbrev old : Option Bytes
old = some (codes "old")

abbrev after_upload : Uploading × UploadEnd
after_upload = (
  record {
    creation = confirmed;
    rename_started = true;
    unlink_tried = false;
    temporary = none;
    destination = some file;
  },
  uploaded 2,
)

file_uploaded : upload closing announced (before_upload old) ≡ some after_upload
unfolding upload
file_uploaded = refl

-- What a failed upload leaves and says: the destination, whether it is said to be preserved, and
-- whether the temporary file is still there.
shown_failure : Option (Uploading × UploadEnd) → Option (Option Bytes × Bool × Option Bytes)
shown_failure (some (end, upload_failed e report)) =
    some (end.destination, report.preserved, end.temporary)
shown_failure (some (end, uploaded n)) = none
shown_failure none = none

file_not_closed :
    shown_failure (upload upload_answers announced (before_upload old)) ≡ some (old, true, none)
unfolding upload shown_failure
file_not_closed = refl

upload-Reported_example : Reported announced file old after_upload
upload-Reported_example =
    upload-Reported closing 2 file old after_upload file_read (λ h. refl) (λ h. refl) file_uploaded

abbrev evil : Text
evil = codes "'; rm -rf / #"

su_command-words_example :
    sh_words bare (su_command evil (codes "root") (codes "c0de"))
    ≡ some (
        codes "LC_ALL=C"
        ∷ codes "su"
        ∷ codes "-"
        ∷ codes "root"
        ∷ codes "-c"
        ∷ su_script evil (codes "c0de")
        ∷ [])
su_command-words_example = su_command-words evil (codes "root") (codes "c0de")

sudo_script-marks_example :
    marks bare (sudo_script evil (codes "root"))
    ≡ marks bare sudo_validation
      ++ (map literal (codes "root")
          ++ (marks bare sudo_check
              ++ (map literal (codes "root")
                  ++ (marks bare (codes " -- sh -lc ")
                      ++ (map literal evil ++ marks bare (codes " < /dev/null"))))))
sudo_script-marks_example = sudo_script-marks evil (codes "root")

abbrev saving : Saving
saving = record {
  readable = true;
  fails = λ stage. false;
  revision = record { bytes = some (as_bytes (codes "old")) };
}

abbrev answers : Answers
answers = record {
  confirm_with_option = ok true;
  confirm = ok true;
  password = ok (codes "secret");
  password_stdin = ok (codes "piped");
}

abbrev store : SessionOnlyStore
store = record { session_password = none; privilege_password = none; values = [] }

abbrev world : World config_json session_only_store
world = record {
  disk = record { file = some (codes "old"); staged = false };
  credentials = store;
  settings = settings;
}

abbrev replace_web : AddArgs
replace_web = record {
  name = web;
  host = codes "web2.example";
  port = 22;
  user = codes "deploy";
  auth = agent_arg;
  force = true;
  replace = true;
  password_stdin = false;
}

-- A client whose state is the name that was trusted last.
abbrev client : HostKeyClient
client = record {
  State = Option Text;
  host_key = λ server.
      ok (record { algorithm = codes "ssh-ed25519"; fingerprint_sha256 = codes "SHA256:hash" });
  trust_host = λ name server fingerprint s. (
    some name,
    ok (record { algorithm = codes "ssh-ed25519"; fingerprint_sha256 = fingerprint }),
  );
}

abbrev agrees : TrustAnswers
agrees = record { ensure_confirmation_available = ok tt; confirm = λ name shown. ok true }

trust_server_confirmed_example :
    ((trust_server client web false agrees settings none).0 ≡ none)
    ⊎ ((server : ServerConfig) × (shown : HostKeyInfo) × (get web settings.servers ≡ some server)
        × (client.host_key server ≡ ok shown)
        × ((false ≡ true) ⊎ (agrees.confirm web shown ≡ ok true))
        × ((trust_server client web false agrees settings none).0
            ≡ (client.trust_host web server shown.fingerprint_sha256 none).0))
trust_server_confirmed_example = trust_server_confirmed client web false agrees settings none
