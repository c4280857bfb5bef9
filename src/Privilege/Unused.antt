-- ===== src/Privilege/Unused.antt =====
-- When the password of a privilege is replaced (src/cli/privilege.rs).
use sshw.Base.{
  Bool-cases, Option-cases, true, false, Text, Option, none, some, ◌≡◌, inl, inr, refl, sym, ap,
  ◌∙◌, arith, text_eq, option_eq, get, insert, get-insert,
}
use sshw.Errors.{ok, Result-cases}
use sshw.Config.{SshwConfig, ServerConfig, AccountConfig, PrivilegeConfig, account}
use sshw.Config.Equality.{config_eq}
use sshw.Access.{get_server}
use sshw.Accounts.{Answers, modify_server}
use sshw.Privilege.{PrivilegeSetArgs, find_account, put_in_server, put_privilege}
use sshw.Privilege.Set.{admit_privilege, replaced, privilege_changed}

-- The account is in the configuration.
abbrev pub IsThere : Text → SshwConfig → Text → AccountConfig → Type 0
IsThere name settings user found =
    (server : ServerConfig) × (get name settings.servers ≡ some server)
    × (get user server.accounts ≡ some found)

found-IsThere :
    (name : Text) (requested : Option Text) (settings : SshwConfig) (user : Text)
    (found : AccountConfig)
    → find_account name requested settings ≡ ok (user, found)
    → IsThere name settings user found
unfolding find_account get_server account
found-IsThere name requested settings user found h =
    elim (Result-cases (get_server settings name)) [
      | inr (e, q) ↦ absurd (ground arith)
      | inl (server, q) ↦ (server, ground arith, ground arith)
    ]

pub admitted-IsThere :
    (args : PrivilegeSetArgs) (answers : Answers) (settings : SshwConfig) (user : Text)
    (found : AccountConfig)
    → admit_privilege args answers settings ≡ ok (user, found)
    → IsThere args.name settings user found
unfolding admit_privilege
admitted-IsThere args answers settings user found h =
    found-IsThere args.name args.account settings user found (ground arith)

-- Putting a privilege that is not the one there changes the configuration.
put_privilege_same :
    (name : Text) (settings : SshwConfig) (user : Text) (found : AccountConfig)
    (new : PrivilegeConfig)
    → IsThere name settings user found
    → put_privilege name user (some new) settings ≡ settings
    → found.privilege ≡ some new
unfolding put_privilege modify_server put_in_server
put_privilege_same name settings user found new (server, g, p) h =
    let put : AccountConfig = record found { privilege = some new } in
    let changed : ServerConfig = record server { accounts = insert user put server.accounts } in
    let f : get name (put_privilege name user (some new) settings).servers ≡ some changed =
      ground (arith, get-insert name name changed settings.servers) in
    let e : some changed ≡ get name settings.servers = sym f ∙ ap (λ c. get name c.servers) h in
    ground (arith, get-insert user user put server.accounts)

replaced_same : (new : PrivilegeConfig) → replaced (some new) new ≡ none
unfolding replaced
replaced_same new = ground arith

-- When nothing changed, no password is replaced.
unchanged-replaced :
    (args : PrivilegeSetArgs) (settings : SshwConfig) (user : Text) (found : AccountConfig)
    (new : PrivilegeConfig)
    → IsThere args.name settings user found
    → privilege_changed args.no_password settings (put_privilege args.name user (some new) settings)
      ≡ false
    → replaced found.privilege new ≡ none
unfolding privilege_changed config_eq
unchanged-replaced args settings user found new there h =
    ground (arith, put_privilege_same args.name settings user found new there, replaced_same new)

-- The account of a configuration becomes root with a password that is stored for a user.
abbrev pub UsesPrivilege : Text → Text → Text × Text → SshwConfig → Type 0
UsesPrivilege name login_user (credential, owner) settings =
    (found : AccountConfig) × (set : PrivilegeConfig) × IsThere name settings login_user found
    × (found.privilege ≡ some set)
    × (set.credential ≡ some credential)
    × (set.user ≡ owner)

replaced-eq-some :
    (previous : Option PrivilegeConfig) (new : PrivilegeConfig) (old owner : Text)
    → replaced previous new ≡ some (old, owner)
    → ((set : PrivilegeConfig) × (previous ≡ some set)
        × (set.credential ≡ some old)
        × (set.user ≡ owner))
      × ¬ ((new.credential ≡ some old) × (new.user ≡ owner))
unfolding replaced
replaced-eq-some none new old owner h = absurd (ground arith)
replaced-eq-some (some set) new old owner h = elim (Option-cases set.credential) [
  | inl e ↦ absurd (ground arith)
  | inr (credential, e) ↦
      ((set, refl, ground arith, ground arith), λ q. absurd (ground (arith, q.0, q.1)))
]

pub replaced-UsesPrivilege :
    (name : Text) (settings : SshwConfig) (login_user : Text) (found : AccountConfig)
    (new : PrivilegeConfig) (old owner : Text)
    → IsThere name settings login_user found
    → replaced found.privilege new ≡ some (old, owner)
    → UsesPrivilege name login_user (old, owner) settings
replaced-UsesPrivilege name settings login_user found new old owner there h =
    let ((set, q, c, u), n) = replaced-eq-some found.privilege new old owner h in
    (found, set, there, q, c, u)

pub replaced-unused :
    (name : Text) (settings : SshwConfig) (login_user : Text) (found : AccountConfig)
    (new : PrivilegeConfig) (old owner : Text)
    → IsThere name settings login_user found
    → replaced found.privilege new ≡ some (old, owner)
    → ¬ UsesPrivilege name login_user
        (old, owner)
        (put_privilege name login_user (some new) settings)
unfolding put_privilege modify_server put_in_server
replaced-unused name settings login_user found new old owner (server, g, p) h
      (found', set, (server', g', p'), q, c, u) =
    let (was, n) = replaced-eq-some found.privilege new old owner h in
    let put : AccountConfig = record found { privilege = some new } in
    let changed : ServerConfig = record server {
      accounts = insert login_user put server.accounts;
    } in
    let same_privilege : new ≡ set = ground (
      arith,
      get-insert name name changed settings.servers,
      get-insert login_user login_user put server.accounts,
    ) in
    n (ap (λ s. s.credential) same_privilege ∙ c, ap (λ s. s.user) same_privilege ∙ u)

pub replaced-changed :
    (args : PrivilegeSetArgs) (settings : SshwConfig) (user : Text) (found : AccountConfig)
    (new : PrivilegeConfig) (old : Text × Text)
    → IsThere args.name settings user found
    → replaced found.privilege new ≡ some old
    → privilege_changed args.no_password settings (put_privilege args.name user (some new) settings)
      ≡ true
replaced-changed args settings user found new old there h =
    elim (Bool-cases (
      privilege_changed args.no_password settings
        (put_privilege args.name user (some new) settings))) [
          | inl e ↦ e
          | inr e ↦
              absurd
                (let gone = unchanged-replaced args settings user found new there e in ground arith)
        ]
