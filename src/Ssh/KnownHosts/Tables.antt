-- ===== src/Ssh/KnownHosts/Tables.antt =====
-- What a file of known hosts holds, as a table, and how a table is printed (src/ssh/known_hosts.rs and
-- src/ssh/ssh2_client.rs).
use sshw.Base.{
  ◌==◌, false, List, [], ◌∷◌, ◌++◌, none, codes, List-cases, subst, trim, is_empty, starts_with, ℕ,
  Bool, true, Text, Option, some, ◌≡◌, ◌≢◌, sym, arith, ◌⊎◌, inl, inr, Bool-cases, Option-cases,
  text_eq,
}
use sshw.Errors.{ok, Result-cases}
use sshw.Storage.{Disk}
use sshw.Ssh.KnownHosts.{
  HostTable, HostSession, HostKeyInfo, host_key_info, session_key, known_host_name, lines,
  is_skipped, read_lines, print_hosts, read_known_hosts_file, hosts_before, known_hosts_text,
  content_of, ensure_supported_host_key,
}

module _ (table : HostTable) where
  -- What reading some lines makes of a table: each line that is neither blank nor a comment is read,
  -- in order.
  abbrev pub HasRead : List Text → table.Hosts → table.Hosts → Type 0
  HasRead [] before after = before ≡ after
  HasRead (line ∷ rest) before after =
      (((trim line ≡ []) ⊎ (starts_with (b'#' ∷ []) (trim line) ≡ true))
        × HasRead rest before after)
      ⊎ ((next : table.Hosts) × (table.read_str (line ++ b'\n' ∷ []) before ≡ ok next)
          × HasRead rest next after)

  -- The table of a file: that of its lines, or the empty one if there is no file.
  abbrev pub HoldsHosts : Option Text → table.Hosts → Type 0
  HoldsHosts none hosts = hosts ≡ table.no_hosts
  HoldsHosts (some content) hosts = HasRead (lines content) table.no_hosts hosts

  -- The text is that of every host of a list, in order.
  abbrev pub IsPrinted : List table.Host → Text → Type 0
  IsPrinted [] text = text ≡ []
  IsPrinted (host ∷ hosts) text =
      (line : Text) × (rest : Text) × (table.write_string host ≡ ok line)
      × IsPrinted hosts rest
      × (text ≡ line ++ rest)

  skipped_lem :
      (line : Text)
      → is_skipped line ≡ true
      → (trim line ≡ []) ⊎ (starts_with (b'#' ∷ []) (trim line) ≡ true)
  unfolding is_skipped is_empty
  skipped_lem line h = elim (List-cases (trim line)) [
    | inl e ↦ inl e
    | inr (c, s, e) ↦ inr (ground arith)
  ]

  read_lines-HasRead :
      (content : List Text) (before after : table.Hosts)
      → read_lines table content before ≡ ok after
      → HasRead content before after
  unfolding read_lines
  read_lines-HasRead [] before after h = ground arith
  read_lines-HasRead (line ∷ rest) before after h = elim (Bool-cases (is_skipped line)) [
    | inl e ↦ inl (skipped_lem line e, read_lines-HasRead rest before after (ground arith))
    | inr e ↦ elim (Result-cases (table.read_str (line ++ b'\n' ∷ []) before)) [
      | inr (error, q) ↦ absurd (ground arith)
      | inl (next, q) ↦ inr (next, q, read_lines-HasRead rest next after (ground arith))
    ]
  ]

  read_file-HasRead :
      (readable : Bool) (content : Text) (disk : Disk) (hosts : table.Hosts)
      → disk.file ≡ some content
      → read_known_hosts_file table (content_of readable disk) table.no_hosts ≡ ok hosts
      → HasRead (lines content) table.no_hosts hosts
  unfolding read_known_hosts_file
  read_file-HasRead true content disk hosts f h =
      read_lines-HasRead (lines content) table.no_hosts hosts (ground arith)
  read_file-HasRead false content disk hosts f h = absurd (ground arith)

  pub hosts_before-HoldsHosts :
      (readable : Bool) (disk : Disk) (hosts : table.Hosts)
      → hosts_before table readable disk ≡ ok hosts
      → HoldsHosts disk.file hosts
  unfolding hosts_before
  hosts_before-HoldsHosts readable disk hosts h = elim (Option-cases disk.file) [
    | inl e ↦ subst (λ file. HoldsHosts file hosts) (sym e) (ground arith)
    | inr (content, e) ↦
        subst (λ file. HoldsHosts file hosts) (sym e)
          (read_file-HasRead readable content disk hosts e (ground arith))
  ]

  print_hosts-IsPrinted :
      (hosts : List table.Host) (text : Text)
      → print_hosts table hosts ≡ ok text
      → IsPrinted hosts text
  unfolding print_hosts
  print_hosts-IsPrinted [] text h = ground arith
  print_hosts-IsPrinted (host ∷ hosts) text h = elim (Result-cases (table.write_string host)) [
    | inr (e, q) ↦ absurd (ground arith)
    | inl (line, q) ↦ elim (Result-cases (print_hosts table hosts)) [
      | inr (e, r) ↦ absurd (ground arith)
      | inl (rest, r) ↦ (line, rest, q, print_hosts-IsPrinted hosts rest r, ground arith)
    ]
  ]

  pub known_hosts_text-IsPrinted :
      (hosts : table.Hosts) (text : Text)
      → known_hosts_text table hosts ≡ ok text
      → (entries : List table.Host) × (table.hosts hosts ≡ ok entries) × IsPrinted entries text
  unfolding known_hosts_text
  known_hosts_text-IsPrinted hosts text h = elim (Result-cases (table.hosts hosts)) [
    | inr (e, q) ↦ absurd (ground arith)
    | inl (entries, q) ↦ (entries, q, print_hosts-IsPrinted entries text (ground arith))
  ]

-- The fingerprint is that of the session's hash.
pub host_key_info-hash :
    (session : HostSession) (info : HostKeyInfo)
    → host_key_info session ≡ ok info
    → (hash : Text) × (session.host_key_hash ≡ some hash)
      × (info.fingerprint_sha256 ≡ codes "SHA256:" ++ hash)
unfolding host_key_info session_key
host_key_info-hash session info h = elim (Option-cases session.host_key) [
  | inl k ↦ absurd (ground arith)
  | inr ((key, key_type), k) ↦ elim (Result-cases (ensure_supported_host_key key_type)) [
    | inr (error, q) ↦ absurd (ground arith)
    | inl (u, q) ↦ elim (Option-cases session.host_key_hash) [
      | inl e ↦ absurd (ground arith)
      | inr (hash, e) ↦ (hash, e, ground arith)
    ]
  ]
]

pub known_host_name-cases :
    (decimal : ℕ → Text) (host : Text) (port : ℕ)
    → ((port ≡ 22) × (known_host_name decimal host port ≡ host))
      ⊎ ((port ≢ 22)
          × (known_host_name decimal host port ≡ b'[' ∷ (host ++ (codes "]:" ++ decimal port))))
unfolding known_host_name
known_host_name-cases decimal host port = elim (Bool-cases (port == 22)) [
  | inl e ↦ inl (ground arith, ground arith)
  | inr e ↦ inr (λ q. ground arith, ground arith)
]
