-- ===== src/Ssh/Connection.antt =====
-- Connecting, verifying the host and authenticating (src/ssh/ssh2_client.rs,
-- `connect_verified_authenticated`), and the time that an operation has. What the network and the
-- session answer are arguments.
use sshw.Base.{
  ℕ, ◌+◌, ◌-◌, ◌*◌, ◌/◌, ltb, ◌≤◌, ◌<◌, Bool, Text, codes, List, [], ◌∷◌, ◌++◌, Option, none, some,
  leb, if◌then◌else◌, ◌≡◌, refl, arith, ◌⊎◌, inl, inr,
}
use sshw.Errors.{
  ssh, auth, says, context, Error, Result, ok, err, map_err, and_then, app_error, Result-cases,
}
use sshw.Config.{ServerConfig, plain_error}
use sshw.Storage.{Disk}
use sshw.Ssh.KnownHosts.{HostTable, HostSession, verify_known_host}
use sshw.Ssh.KnownHosts.Trusted.{IsKnown, verify_known_host-IsKnown}

-- `AuthMaterial` of src/credentials/mod.rs.
pub data AuthMaterial : Type 0 where
  password : Text → AuthMaterial
  agent : AuthMaterial

-- What was offered to the server.
pub data Offer : Type 0 where
  offered_password : Text → Text → Offer
  offered_agent : Text → Offer

-- What the session answers to `userauth_password` or `userauth_agent`, and `authenticated`.
pub record AuthAnswers : Type 0 where
  pub userauth : Result (Unit {0})
  pub authenticated : Bool

offer_of : AuthMaterial → Text → Offer
offer_of (password secret) user = offered_password user secret
offer_of agent user = offered_agent user

diagnostic : AuthMaterial → Error → Error
diagnostic (password secret) e = context (says (codes "SSH password authentication failed")) ∷ e
diagnostic agent e = context (says (codes "SSH agent authentication failed")) ∷ e

with_diagnostic : AuthMaterial → Result (Unit {0}) → Result (Unit {0})
unfolding diagnostic
with_diagnostic material (ok u) = ok tt
with_diagnostic material (err e) = err (diagnostic material e)

not_completed : AuthMaterial → Error
unfolding diagnostic
not_completed (password secret) =
    diagnostic (password secret) (plain_error (codes "SSH authentication did not complete"))
not_completed agent = plain_error (codes "SSH authentication failed")

unfoldable pub authenticate :
    AuthMaterial → Text → AuthAnswers → List Offer → List Offer × Result (Unit {0})
unfolding offer_of with_diagnostic not_completed
authenticate material user answers offers =
    and_then (offers ++ offer_of material user ∷ [], with_diagnostic material answers.userauth)
      (λ u offers.
        (offers, (if answers.authenticated then ok tt else err (not_completed material))))

-- The result, and what was offered on the way.
unfoldable pub connect_verified_authenticated :
    HostTable
    → Result HostSession
    → Bool
    → ServerConfig
    → Disk
    → AuthMaterial
    → Text
    → AuthAnswers
    → List Offer × Result HostSession
unfolding authenticate
connect_verified_authenticated table connected readable server disk material user answers =
    and_then ([], map_err ssh connected)
      (λ session offers.
        and_then (offers, map_err ssh (verify_known_host table readable session server disk))
          (λ u offers.
            let (offers, r) = authenticate material user answers offers in
            and_then (offers, map_err auth r) (λ u offers. (offers, ok session))))

-- No password and no key of the agent is offered to a server before its host key was verified: if
-- anything was offered, the connection stands and the host is known.
pub offers-IsKnown :
    (table : HostTable) (connected : Result HostSession) (readable : Bool) (server : ServerConfig)
    (disk : Disk) (material : AuthMaterial) (user : Text) (answers : AuthAnswers)
    → ((connect_verified_authenticated table connected readable server disk material user answers).0
        ≡ [])
      ⊎ ((session : HostSession) × (connected ≡ ok session)
          × IsKnown table readable session server disk)
unfolding connect_verified_authenticated
offers-IsKnown table (err e) readable server disk material user answers = inl refl
offers-IsKnown table (ok session) readable server disk material user answers =
    elim (Result-cases (verify_known_host table readable session server disk)) [
      | inr (e, q) ↦ inl (ground arith)
      | inl (u, q) ↦
          inr (session, refl, (verify_known_host-IsKnown table readable session server disk).0 q)
    ]

-- `timeout_millis` of a duration in nanoseconds: at least 1, since libssh2 reads 0 as no timeout,
-- and at most `u32::MAX`.
abbrev pub u32_max : ℕ
u32_max = 4294967295

abbrev pub as_millis : ℕ → ℕ
as_millis timeout = timeout / 1000000

unfoldable pub timeout_millis : ℕ → ℕ
timeout_millis timeout =
    if ltb (as_millis timeout) 1
    then 1
    else if ltb u32_max (as_millis timeout)
    then u32_max
    else as_millis timeout

unfoldable pub op_timeout_millis : Option ℕ → ℕ
unfolding timeout_millis
op_timeout_millis none = 0
op_timeout_millis (some timeout) = timeout_millis timeout

-- `OperationDeadline::remaining`, with the time that has passed.
unfoldable pub remaining : Option ℕ → ℕ → Result (Option ℕ)
remaining none elapsed = ok none
remaining (some timeout) elapsed =
    if leb timeout elapsed
    then err (app_error ssh (says (codes "ssh operation timed out")))
    else ok (some (timeout - elapsed))

-- The timeout that `OperationDeadline::apply` sets.
unfoldable pub applied_timeout : Option ℕ → ℕ → Result ℕ
unfolding remaining op_timeout_millis
applied_timeout timeout elapsed = elim (remaining timeout elapsed) [
  | err e ↦ err e
  | ok left ↦ ok (op_timeout_millis left)
]

-- A timeout that is set for an operation with a deadline is set before the deadline only, is never
-- 0, which would be none, fits 32 bits, and passes the deadline by less than a millisecond.
applied_timeout-bounds :
    (timeout elapsed millis : ℕ)
    → applied_timeout (some timeout) elapsed ≡ ok millis
    → (elapsed < timeout)
      × (1 ≤ millis)
      × (millis ≤ u32_max)
      × (elapsed + millis * 1000000 < timeout + 1000000)
unfolding applied_timeout remaining op_timeout_millis timeout_millis
applied_timeout-bounds timeout elapsed millis h =
    (ground arith, ground arith, ground arith, ground arith)
