-- ===== src/Ssh/KnownHosts/Trusted.antt =====
-- When a host counts as known, and when the file of known hosts changes (src/ssh/ssh2_client.rs,
-- `verify_known_host` and `trust_host`).
use sshw.Base.{
  List, ◌∷◌, ◌++◌, codes, ℕ, Bool, true, Text, Option, some, ◌≡◌, ◌≢◌, ◌↔◌, refl, sym, ap, ◌∙◌,
  arith, ◌⊎◌, inl, inr, Bool-cases, Option-cases, same, text_eq, is_some,
}
use sshw.Errors.{Result, ok, err, Result-cases}
use sshw.Config.{ServerConfig}
use sshw.Storage.{Disk, Stage}
use sshw.Storage.Publish.{Outcome, write_owner_only_atomic-Outcome}
use sshw.Ssh.KnownHosts.{
  CheckResult, matched, mismatch, not_found, failure, HostKeyType, HostTable, HostSession,
  HostKeyInfo, host_key_info, session_key, known_host_name, known_host_verification_result,
  read_known_hosts_file, hosts_before, add_host, trust_checked, trust_host, same_fingerprint,
  verify_known_host, known_hosts_text, content_of, write_known_hosts_file,
  ensure_supported_host_key,
}
use sshw.Ssh.KnownHosts.Tables.{
  HoldsHosts, IsPrinted, hosts_before-HoldsHosts, known_hosts_text-IsPrinted, host_key_info-hash,
  known_host_name-cases,
}

CheckResult-cases :
    (check : CheckResult) → (check ≡ matched) ⊎ (known_host_verification_result check ≢ ok tt)
unfolding known_host_verification_result
CheckResult-cases matched = inl refl
CheckResult-cases mismatch = inr (λ e. cc)
CheckResult-cases not_found = inr (λ e. cc)
CheckResult-cases failure = inr (λ e. cc)

module _ (table : HostTable) (readable : Bool) (session : HostSession) (server : ServerConfig) where
  -- The file of known hosts can be read and holds the server's own key for its host and port.
  abbrev pub IsKnown : Disk → Type 0
  IsKnown disk =
      (key : Text) × (key_type : HostKeyType) × (hosts : table.Hosts) × (session.host_key
        ≡ some (key, key_type))
      × (is_some disk.file ≡ true)
      × (read_known_hosts_file table (content_of readable disk) table.no_hosts ≡ ok hosts)
      × (table.check_port hosts server.host server.port key ≡ matched)

  of_IsKnown :
      (disk : Disk) → verify_known_host table readable session server disk ≡ ok tt → IsKnown disk
  unfolding verify_known_host session_key
  of_IsKnown disk h = elim (Option-cases session.host_key) [
    | inl e ↦ absurd (ground arith)
    | inr ((key, key_type), e) ↦ elim (Bool-cases (is_some disk.file)) [
      | inr no_file ↦ absurd (ground arith)
      | inl file ↦
          elim (Result-cases
            (read_known_hosts_file table (content_of readable disk) table.no_hosts)) [
              | inr (error, q) ↦ absurd (ground arith)
              | inl (hosts, q) ↦
                  elim (CheckResult-cases (table.check_port hosts server.host server.port key)) [
                    | inl m ↦ (key, key_type, hosts, e, file, q, m)
                    | inr n ↦ absurd (n (ground arith))
                  ]
            ]
    ]
  ]

  IsKnown-of :
      (disk : Disk) → IsKnown disk → verify_known_host table readable session server disk ≡ ok tt
  unfolding verify_known_host session_key known_host_verification_result
  IsKnown-of disk (key, key_type, hosts, e, file, q, m) = ground arith

  -- The host key is verified exactly if the file of known hosts holds it for this host and port; a
  -- missing file, an unreadable one, and an entry with another key are refused.
  pub verify_known_host-IsKnown :
      (disk : Disk) → (verify_known_host table readable session server disk ≡ ok tt) ↔ IsKnown disk
  verify_known_host-IsKnown disk = (of_IsKnown disk, IsKnown-of disk)

file_of_Outcome :
    (text : Text) (disk : Disk) (r : Result (Unit {0}) × Disk)
    → Outcome text disk r
    → (r.1.file ≡ disk.file) ⊎ (r.1.file ≡ some text)
file_of_Outcome text disk (ok u, after) h = inr h.0
file_of_Outcome text disk (err e, after) (inl h) = inr h.1
file_of_Outcome text disk (err e, after) (inr h) = inl h.1

module _ (table : HostTable) (decimal : ℕ → Text) (fails : Stage → Bool) (readable : Bool)
    (session : HostSession) (server : ServerConfig) (expected : Text) where
  -- The file holds the hosts that were known and the key of a server that was not, the one with the
  -- expected fingerprint, under the server's name and port.
  abbrev pub IsAdded : Disk → Option Text → Type 0
  IsAdded disk file =
      (key : Text) × (key_type : HostKeyType) × (hash : Text) × (hosts : table.Hosts)
      × (name : Text) × (updated : table.Hosts) × (entries : List table.Host) × (text : Text)
      × (session.host_key ≡ some (key, key_type))
      × (session.host_key_hash ≡ some hash)
      × (codes "SHA256:" ++ hash ≡ expected)
      × HoldsHosts table disk.file hosts
      × (table.check_port hosts server.host server.port key ≡ not_found)
      × (((server.port ≡ 22) × (name ≡ server.host))
          ⊎ ((server.port ≢ 22)
              × (name ≡ b'[' ∷ (server.host ++ (codes "]:" ++ decimal server.port)))))
      × (table.add name key key_type hosts ≡ ok updated)
      × (table.hosts updated ≡ ok entries)
      × IsPrinted table entries text
      × (file ≡ some text)

  write_known_hosts_lem :
      (hosts : table.Hosts) (disk : Disk)
      → ((write_known_hosts_file table fails hosts disk).0.file ≡ disk.file)
        ⊎ ((text : Text) × (known_hosts_text table hosts ≡ ok text)
            × ((write_known_hosts_file table fails hosts disk).0.file ≡ some text))
  unfolding write_known_hosts_file
  write_known_hosts_lem hosts disk = elim (Result-cases (known_hosts_text table hosts)) [
    | inr (e, q) ↦ inl (ground arith)
    | inl (text, q) ↦
        elim (file_of_Outcome text disk _ (write_owner_only_atomic-Outcome fails text disk)) [
          | inl same_file ↦ inl (ground (arith, same_file))
          | inr new_file ↦ inr (text, q, ground (arith, new_file))
        ]
  ]

  trust_checked_file :
      (check : CheckResult) (info : HostKeyInfo) (add_it : Disk → Disk × Result (Unit {0}))
      (disk : Disk)
      → ((trust_checked table check info add_it disk).0.file ≡ disk.file)
        ⊎ ((check ≡ not_found)
            × ((trust_checked table check info add_it disk).0.file ≡ (add_it disk).0.file))
  unfolding trust_checked
  trust_checked_file matched info add_it disk = inl refl
  trust_checked_file mismatch info add_it disk = inl refl
  trust_checked_file failure info add_it disk = inl refl
  trust_checked_file not_found info add_it disk = inr (refl, ground arith)

  add_host_lem :
      (key : Text) (key_type : HostKeyType) (hosts : table.Hosts) (disk : Disk)
      → ((add_host table decimal fails server key key_type hosts disk).0.file ≡ disk.file)
        ⊎ ((updated : table.Hosts) × (text : Text) × (table.add
                (known_host_name decimal server.host server.port)
                key
                key_type
                hosts
              ≡ ok updated)
            × (known_hosts_text table updated ≡ ok text)
            × ((add_host table decimal fails server key key_type hosts disk).0.file ≡ some text))
  unfolding add_host
  add_host_lem key key_type hosts disk =
      elim (Result-cases
        (table.add (known_host_name decimal server.host server.port) key key_type hosts)) [
          | inr (e, q) ↦ inl (ground arith)
          | inl (updated, q) ↦ elim (write_known_hosts_lem updated disk) [
            | inl kept ↦ inl (ground arith)
            | inr (text, t, f) ↦ inr (updated, text, q, t, ground arith)
          ]
        ]

  -- What the end of `trust_host` does, once every check before it let it through.
  checked_file :
      (key : Text) (key_type : HostKeyType) (info : HostKeyInfo) (hosts : table.Hosts) (disk : Disk)
      → session.host_key ≡ some (key, key_type)
      → host_key_info session ≡ ok info
      → info.fingerprint_sha256 ≡ expected
      → hosts_before table readable disk ≡ ok hosts
      → (end : Disk × Result HostKeyInfo)
      → trust_checked table
          (table.check_port hosts server.host server.port key)
          info
          (add_host table decimal fails server key key_type hosts)
          disk
        ≡ end
      → (end.0.file ≡ disk.file) ⊎ IsAdded disk end.0.file
  checked_file key key_type info hosts disk e i f b end q =
      elim (trust_checked_file (table.check_port hosts server.host server.port key) info
        (add_host table decimal fails server key key_type hosts) disk) [
          | inl kept ↦ inl (ap (λ p. p.0.file) (sym q) ∙ kept)
          | inr (n, same_file) ↦ elim (add_host_lem key key_type hosts disk) [
            | inl kept ↦ inl (ap (λ p. p.0.file) (sym q) ∙ same_file ∙ kept)
            | inr (updated, text, a, t, new_file) ↦
                let (hash, given, same_hash) = host_key_info-hash session info i in
                let (entries, listed, printed) = known_hosts_text-IsPrinted table updated text t in
                inr (
                  key,
                  key_type,
                  hash,
                  hosts,
                  known_host_name decimal server.host server.port,
                  updated,
                  entries,
                  text,
                  e,
                  given,
                  sym same_hash ∙ f,
                  hosts_before-HoldsHosts table readable disk hosts b,
                  n,
                  known_host_name-cases decimal server.host server.port,
                  a,
                  listed,
                  printed,
                  ap (λ p. p.0.file) (sym q) ∙ same_file ∙ new_file,
                )
          ]
        ]

  -- Whatever happens, the file of known hosts is as it was, or it is the text of all hosts that the
  -- lines of the file held before, blank ones and comments left out, with the key added of a host for
  -- which the table found none; the fingerprint of this key is the expected one.
  pub trust_host-IsAdded :
      (disk : Disk)
      → ((trust_host table decimal fails readable session server expected disk).0.file ≡ disk.file)
        ⊎ IsAdded disk (trust_host table decimal fails readable session server expected disk).0.file
  unfolding trust_host session_key same_fingerprint
  trust_host-IsAdded disk = elim (Option-cases session.host_key) [
    | inl e ↦ inl (ground arith)
    | inr ((key, key_type), e) ↦ elim (Result-cases (ensure_supported_host_key key_type)) [
      | inr (e1, q1) ↦ inl (ground arith)
      | inl (u, q1) ↦ elim (Result-cases (host_key_info session)) [
        | inr (e2, q2) ↦ inl (ground arith)
        | inl (info, q2) ↦ elim (Bool-cases (same info.fingerprint_sha256 expected)) [
          | inr f ↦ inl (ground arith)
          | inl f ↦ elim (Result-cases (hosts_before table readable disk)) [
            | inr (e4, q4) ↦ inl (ground arith)
            | inl (hosts, q4) ↦
                checked_file key key_type info hosts disk e q2 (ground arith) q4
                  (trust_host table decimal fails readable session server expected disk)
                  (ground arith)
          ]
        ]
      ]
    ]
  ]
