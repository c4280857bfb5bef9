-- ===== src/Servers/Trust.antt =====
-- Trusting a server's host key (src/cli/server.rs, `trust_server`). The SSH client is a parameter;
-- what the prompter answers depends on what it shows.
use sshw.Base.{Bool, true, false, Text, codes, ◌≡◌, refl, ◌⊎◌, inl, inr, arith, get, some}
use sshw.Errors.{config, ssh, Result, ok, err, map_err, and_then, Result-cases}
use sshw.Config.{SshwConfig, ServerConfig}
use sshw.Access.{get_server}
use sshw.Accounts.{confirmed}
use sshw.Ssh.KnownHosts.{HostKeyInfo}

-- The part of the trait `SshClient` of src/ssh/mod.rs that is about host keys, on the state of the
-- file of known hosts.
pub record HostKeyClient : Type 1 where
  pub State : Type 0
  pub host_key : ServerConfig → Result HostKeyInfo
  pub trust_host : Text → ServerConfig → Text → State → State × Result HostKeyInfo

-- What the prompter answers: whether it can ask, and what it is told for a name and a key.
pub record TrustAnswers : Type 0 where
  pub ensure_confirmation_available : Result (Unit {0})
  pub confirm : Text → HostKeyInfo → Result Bool

available : Bool → TrustAnswers → Result (Unit {0})
available true answers = ok tt
available false answers = map_err config answers.ensure_confirmation_available

module _ (client : HostKeyClient) where
  trusted : client.State × Result HostKeyInfo → client.State × Result HostKeyInfo
  trusted (s, r) = (s, map_err ssh r)

  unfoldable pub trust_server :
      Text → Bool → TrustAnswers → SshwConfig → client.State → client.State × Result HostKeyInfo
  unfolding available trusted
  trust_server name yes_flag answers settings s =
      and_then (s, get_server settings name)
        (λ server s.
          and_then (s, available yes_flag answers)
            (λ u s.
              and_then (s, map_err ssh (client.host_key server))
                (λ host_key s.
                  and_then
                    (
                      s,
                      confirmed yes_flag (answers.confirm name host_key) (codes "trust cancelled"),
                    )
                    (λ u s.
                      trusted (client.trust_host name server host_key.fingerprint_sha256 s)))))

  confirmed-eq-ok :
      (yes_flag : Bool) (answer : Result Bool) (text : Text)
      → confirmed yes_flag answer text ≡ ok tt
      → (yes_flag ≡ true) ⊎ (answer ≡ ok true)
  unfolding confirmed
  confirmed-eq-ok true answer text h = inl refl
  confirmed-eq-ok false (err e) text h = absurd (ground arith)
  confirmed-eq-ok false (ok true) text h = inr refl
  confirmed-eq-ok false (ok false) text h = absurd (ground arith)

  -- The known hosts are as they were, or the client was told to trust the key that the server showed
  -- first, after the user was shown this key and agreed, or with --yes.
  pub trust_server_confirmed :
      (name : Text) (yes_flag : Bool) (answers : TrustAnswers) (settings : SshwConfig)
      (s : client.State)
      → ((trust_server name yes_flag answers settings s).0 ≡ s)
        ⊎ ((server : ServerConfig) × (key : HostKeyInfo) × (get name settings.servers ≡ some server)
            × (client.host_key server ≡ ok key)
            × ((yes_flag ≡ true) ⊎ (answers.confirm name key ≡ ok true))
            × ((trust_server name yes_flag answers settings s).0
                ≡ (client.trust_host name server key.fingerprint_sha256 s).0))
  unfolding trust_server get_server
  trust_server_confirmed name yes_flag answers settings s =
      elim (Result-cases (get_server settings name)) [
        | inr (e, q) ↦ inl (ground arith)
        | inl (server, q) ↦ elim (Result-cases (available yes_flag answers)) [
          | inr (e1, q1) ↦ inl (ground arith)
          | inl (u, q1) ↦ elim (Result-cases (client.host_key server)) [
            | inr (e2, q2) ↦ inl (ground arith)
            | inl (key, q2) ↦
                elim (Result-cases
                  (confirmed yes_flag (answers.confirm name key) (codes "trust cancelled"))) [
                    | inr (e3, q3) ↦ inl (ground arith)
                    | inl (u3, q3) ↦ inr (
                      server,
                      key,
                      ground arith,
                      q2,
                      confirmed-eq-ok yes_flag (answers.confirm name key) (codes "trust cancelled")
                          q3,
                      ground arith,
                    )
                  ]
          ]
        ]
      ]
