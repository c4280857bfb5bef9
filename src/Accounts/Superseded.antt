-- ===== src/Accounts/Superseded.antt =====
-- When a password of an account is superseded (src/cli/account.rs).
use sshw.Base.{
  ◌≢◌, Bool-cases, true, false, Text, Option, none, some, ◌≡◌, inl, inr, refl, sym, ap, ◌∙◌, arith,
  text_eq, get, insert, get-insert,
}
use sshw.Errors.{ok, Result-cases}
use sshw.Config.{SshwConfig, ServerConfig, AccountConfig, AuthConfig, password, agent, account}
use sshw.Config.Equality.{config_eq}
use sshw.Access.{get_server}
use sshw.Accounts.{
  AccountAddArgs, Answers, superseded, admit, put_account, modify_server, account_changed,
  previous_auth, previous_privilege,
}

-- The account that the configuration had.
abbrev pub WasThere : AccountAddArgs → SshwConfig → Option AccountConfig → Type 0
WasThere args settings previous =
    (server : ServerConfig) × (get args.name settings.servers ≡ some server)
    × (previous ≡ get args.user server.accounts)

pub admitted :
    (args : AccountAddArgs) (answers : Answers) (settings : SshwConfig)
    (previous : Option AccountConfig)
    → admit args answers settings ≡ ok previous
    → WasThere args settings previous
unfolding admit get_server account
admitted args answers settings previous h = elim (Result-cases (get_server settings args.name)) [
  | inr (e, q) ↦ absurd (ground arith)
  | inl (server, q) ↦ (server, ground arith, ground arith)
]

-- Putting an account that is not the one there changes the configuration.
put_account_same :
    (args : AccountAddArgs) (settings : SshwConfig) (previous : Option AccountConfig)
    (new : AccountConfig)
    → WasThere args settings previous
    → put_account args.name args.user new settings ≡ settings
    → previous ≡ some new
unfolding put_account modify_server
put_account_same args settings previous new (server, g, p) h =
    let changed : ServerConfig = record server {
      accounts = insert args.user new server.accounts;
    } in
    let f : get args.name (put_account args.name args.user new settings).servers ≡ some changed =
      ground (arith, get-insert args.name args.name changed settings.servers) in
    let e : some changed ≡ get args.name settings.servers =
      sym f ∙ ap (λ c. get args.name c.servers) h in
    ground (arith, get-insert args.user args.user new server.accounts)

superseded_same : (login_auth : AuthConfig) → superseded (some login_auth) login_auth ≡ none
unfolding superseded
superseded_same (password credential) = ground arith
superseded_same agent = refl

-- When nothing changed, no password is superseded.
unchanged-superseded :
    (args : AccountAddArgs) (settings : SshwConfig) (previous : Option AccountConfig)
    (login_auth : AuthConfig)
    → WasThere args settings previous
    → account_changed args.auth settings (
        put_account args.name args.user
          (record { auth = login_auth; privilege = previous_privilege previous })
          settings)
      ≡ false
    → superseded (previous_auth previous) login_auth ≡ none
unfolding account_changed config_eq previous_auth
unchanged-superseded args settings previous login_auth there h =
    let new : AccountConfig = record {
      auth = login_auth;
      privilege = previous_privilege previous;
    } in
    ground (arith, put_account_same args settings previous new there, superseded_same login_auth)

-- The account of a configuration uses a password.
abbrev pub Uses : Text → Text → Text → SshwConfig → Type 0
Uses name user credential settings =
    (server : ServerConfig) × (found : AccountConfig) × (get name settings.servers ≡ some server)
    × (get user server.accounts ≡ some found)
    × (found.auth ≡ password credential)

superseded-eq-some :
    (previous : Option AccountConfig) (new : AuthConfig) (old : Text)
    → superseded (previous_auth previous) new ≡ some old
    → ((found : AccountConfig) × (previous ≡ some found) × (found.auth ≡ password old))
      × (new ≢ password old)
unfolding superseded previous_auth
superseded-eq-some none new old h = absurd (ground arith)
superseded-eq-some (some found) new old h = superseded_auth found found.auth new old refl h
  where
    superseded_auth :
        (found : AccountConfig) (auth new : AuthConfig) (old : Text)
        → found.auth ≡ auth
        → superseded (some auth) new ≡ some old
        → ((account : AccountConfig) × (some found ≡ some account) × (account.auth ≡ password old))
          × (new ≢ password old)
    superseded_auth found agent new old e h = absurd (ground arith)
    superseded_auth found (password credential) agent old e h =
        ((found, refl, ground arith), λ q. cc)
    superseded_auth found (password credential) (password fresh) old e h =
        ((found, refl, ground arith), λ q. absurd (ground arith))

pub superseded-Uses :
    (args : AccountAddArgs) (settings : SshwConfig) (previous : Option AccountConfig)
    (new : AuthConfig) (old : Text)
    → WasThere args settings previous
    → superseded (previous_auth previous) new ≡ some old
    → Uses args.name args.user old settings
superseded-Uses args settings previous new old (server, g, p) h =
    let ((found, q, a), n) = superseded-eq-some previous new old h in
    (server, found, g, sym p ∙ q, a)

pub superseded-unused :
    (args : AccountAddArgs) (settings : SshwConfig) (previous : Option AccountConfig)
    (new : AuthConfig) (old : Text)
    → WasThere args settings previous
    → superseded (previous_auth previous) new ≡ some old
    → ¬ Uses args.name args.user old (
        put_account args.name args.user
          (record { auth = new; privilege = previous_privilege previous })
          settings)
unfolding put_account modify_server
superseded-unused args settings previous new old (server, g, p) h (server', found, g', p', a) =
    let (was, n) = superseded-eq-some previous new old h in
    let put : AccountConfig = record { auth = new; privilege = previous_privilege previous } in
    let changed : ServerConfig = record server {
      accounts = insert args.user put server.accounts;
    } in
    n (
      ground (
        arith,
        get-insert args.name args.name changed settings.servers,
        get-insert args.user args.user put server.accounts,
      ))

pub superseded-changed :
    (args : AccountAddArgs) (settings : SshwConfig) (previous : Option AccountConfig)
    (new : AuthConfig) (old : Text)
    → WasThere args settings previous
    → superseded (previous_auth previous) new ≡ some old
    → account_changed args.auth settings (
        put_account args.name args.user
          (record { auth = new; privilege = previous_privilege previous })
          settings)
      ≡ true
superseded-changed args settings previous new old there h =
    elim (Bool-cases (
      account_changed args.auth settings (
        put_account args.name args.user
          (record { auth = new; privilege = previous_privilege previous }) settings))) [
            | inl e ↦ e
            | inr e ↦
                absurd (
                  let gone = unchanged-superseded args settings previous new there e in
                  ground arith)
          ]
