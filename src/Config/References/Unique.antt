-- ===== src/Config/References/Unique.antt =====
-- What a validated configuration guarantees.
use sshw.Base.{
  true, Option-cases, Text, [], ◌∷◌, ◌++◌, Option, none, some, ◌≡◌, ◌≢◌, inl, inr, refl, arith,
  text_eq, AllOf, Map, NodupKeys, get, insert, get-insert, contains_key,
}
use sshw.Errors.{ok, >>=-eq-ok, ensure}
use sshw.Home.{CredentialPurpose, login, privilege, CredentialNamespace, validate_server_name}
use sshw.Home.Keys.{Base64}
use sshw.Config.{
  AuthConfig, password, agent, PrivilegeConfig, AccountConfig, ServerConfig, SshwConfig,
  validate_account_user, validate_server_endpoint, validate,
}
use sshw.Config.References.{
  Owners, owner_label, validate_credential_owner, validate_auth, validate_privilege,
  validate_privilege_credential, validate_default, validate_account, validate_accounts,
  validate_server, validate_servers, validate_config_credential_references,
}

-- The credentials that an account refers to, with their owners.
abbrev pub claims_auth : Text → Text → AuthConfig → Owners
claims_auth server user agent = []
claims_auth server user (password credential) = (credential, owner_label login server user) ∷ []

abbrev pub claims_credential : Text → Text → Option Text → Owners
claims_credential server user none = []
claims_credential server user (some credential) =
    (credential, owner_label privilege server user) ∷ []

abbrev pub claims_privilege : Text → Text → Option PrivilegeConfig → Owners
claims_privilege server user none = []
claims_privilege server user (some p) = claims_credential server user p.credential

abbrev pub claims_account : Text → Text → AccountConfig → Owners
claims_account server user account =
    claims_auth server user account.auth ++ claims_privilege server user account.privilege

abbrev pub claims_accounts : Text → Map AccountConfig → Owners
claims_accounts server [] = []
claims_accounts server ((user, account) ∷ accounts) =
    claims_account server user account ++ claims_accounts server accounts

abbrev pub claims_servers : Map ServerConfig → Owners
claims_servers [] = []
claims_servers ((name, server) ∷ servers) =
    claims_accounts name server.accounts ++ claims_servers servers

-- One claim after another, none on a credential that is taken.
register : Owners → Owners → Option Owners
register [] owners = some owners
register ((c, l) ∷ claims) owners =
    let rest = register claims (insert c l owners) in
    elim (get c owners) [ none ↦ rest | some m ↦ none ]

abbrev then_register : Owners → Option Owners → Option Owners
then_register claims none = none
then_register claims (some owners) = register claims owners

register-append :
    (xs ys owners : Owners) → register (xs ++ ys) owners ≡ then_register ys (register xs owners)
unfolding register
register-append [] ys owners = refl
register-append ((c, l) ∷ xs) ys owners = ground (arith, register-append xs ys (insert c l owners))

register-then :
    (xs ys owners owners' : Owners) (last : Option Owners)
    → register xs owners ≡ some owners'
    → register ys owners' ≡ last
    → register (xs ++ ys) owners ≡ last
register-then xs ys owners owners' last h k = rw (register-append, h) k

register-NodupKeys :
    (claims owners owners' : Owners)
    → register claims owners ≡ some owners'
    → NodupKeys claims × ((c : Text) → get c owners ≢ none → get c claims ≡ none)
unfolding register get
register-NodupKeys [] owners owners' h = (tt, λ c k. refl)
register-NodupKeys ((c, l) ∷ claims) owners owners' h = elim (Option-cases (get c owners)) [
  | inr (m, e) ↦ absurd (ground arith)
  | inl e ↦
      let (distinct, fresh) =
        register-NodupKeys claims (insert c l owners) owners' (ground arith) in
      (
        (fresh c (rw get-insert (ground arith)), distinct),
        λ d k. ground (arith, fresh d, get-insert c d l owners),
      )
]

module _ (b64 : Base64) (ns : CredentialNamespace) where
  register-owner :
      (purpose : CredentialPurpose) (server user credential : Text) (owners owners' : Owners)
      → validate_credential_owner b64 ns purpose server user credential owners ≡ ok owners'
      → register ((credential, owner_label purpose server user) ∷ []) owners ≡ some owners'
  unfolding validate_credential_owner register
  register-owner purpose server user credential owners owners' h = ground arith

  register-auth :
      (server user : Text) (auth : AuthConfig) (owners owners' : Owners)
      → validate_auth b64 ns server user auth owners ≡ ok owners'
      → register (claims_auth server user auth) owners ≡ some owners'
  unfolding validate_auth
  register-auth server user agent owners owners' h = unfold register in ground arith
  register-auth server user (password c) owners owners' h =
      register-owner login server user c owners owners' h

  register-privilege :
      (server user : Text) (p : Option PrivilegeConfig) (owners owners' : Owners)
      → validate_privilege b64 ns server user p owners ≡ ok owners'
      → register (claims_privilege server user p) owners ≡ some owners'
  unfolding validate_privilege
  register-privilege server user none owners owners' h = unfold register in ground arith
  register-privilege server user (some p) owners owners' h =
      let (u, valid, k) = >>=-eq-ok (validate p) _ h in go p.credential k
    where
      go :
          (c : Option Text)
          → validate_privilege_credential b64 ns server user c owners ≡ ok owners'
          → register (claims_credential server user c) owners ≡ some owners'
      go none k = unfold register in ground arith
      go (some c) k = register-owner privilege server user c owners owners' k

  register-account :
      (server user : Text) (account : AccountConfig) (owners owners' : Owners)
      → validate_account b64 ns server user account owners ≡ ok owners'
      → register (claims_account server user account) owners ≡ some owners'
  unfolding validate_account
  register-account server user account owners owners' h =
      let (u, valid, k) = >>=-eq-ok (validate_account_user user) _ h in
      let (owners'', a, p) = >>=-eq-ok (validate_auth b64 ns server user account.auth owners) _ k in
      register-then (claims_auth server user account.auth) _ owners owners'' _
        (register-auth server user account.auth owners owners'' a)
        (register-privilege server user account.privilege owners'' owners' p)

  register-accounts :
      (server : Text) (accounts : Map AccountConfig) (owners owners' : Owners)
      → validate_accounts b64 ns server accounts owners ≡ ok owners'
      → register (claims_accounts server accounts) owners ≡ some owners'
  unfolding validate_accounts
  register-accounts server [] owners owners' h = unfold register in ground arith
  register-accounts server ((user, account) ∷ accounts) owners owners' h =
      let (owners'', a, p) = >>=-eq-ok (validate_account b64 ns server user account owners) _ h in
      register-then (claims_account server user account) _ owners owners'' _
        (register-account server user account owners owners'' a)
        (register-accounts server accounts owners'' owners' p)

  -- A server whose name, endpoint and default account are in order.
  pub record IsSound (name : Text) (server : ServerConfig) : Type 0 where
    pub name_valid : validate_server_name name ≡ ok tt
    pub endpoint_valid : validate_server_endpoint server.host server.port ≡ ok tt
    pub default_registered : contains_key server.default_user server.accounts ≡ true

  IsSound-server :
      (name : Text) (server : ServerConfig) (owners owners' : Owners)
      → validate_server b64 ns name server owners ≡ ok owners'
      → IsSound name server
        × (register (claims_accounts name server.accounts) owners ≡ some owners')
  unfolding validate_server
  IsSound-server name server owners owners' h =
      let (u, n, k) = >>=-eq-ok (validate_server_name name) _ h in
      let (v, e, l) = >>=-eq-ok (validate_server_endpoint server.host server.port) _ k in
      let (w, d, m) = >>=-eq-ok (ensure (contains_key server.default_user server.accounts) _) _ l in
      (
        record {
          name_valid = ground arith;
          endpoint_valid = ground arith;
          default_registered = ground arith;
        },
        register-accounts name server.accounts owners owners' m,
      )

  IsSound-servers :
      (servers : Map ServerConfig) (owners owners' : Owners)
      → validate_servers b64 ns servers owners ≡ ok owners'
      → AllOf (λ (name, server). IsSound name server) servers
        × (register (claims_servers servers) owners ≡ some owners')
  unfolding validate_servers
  IsSound-servers [] owners owners' h = (tt, unfold register in ground arith)
  IsSound-servers ((name, server) ∷ servers) owners owners' h =
      let (owners'', a, p) = >>=-eq-ok (validate_server b64 ns name server owners) _ h in
      let (sound, q) = IsSound-server name server owners owners'' a in
      let (all_sound, r) = IsSound-servers servers owners'' owners' p in
      (
        (sound, all_sound),
        register-then (claims_accounts name server.accounts) _ owners owners'' _ q r,
      )

  -- In a configuration that passes the check no credential is referred to twice, by whatever
  -- accounts and purposes; every server has a valid name and endpoint and its default account; and
  -- the default server, if one is named, is there.
  pub validated_config :
      (config : SshwConfig)
      → validate_config_credential_references b64 ns config ≡ ok tt
      → NodupKeys (claims_servers config.servers)
        × AllOf (λ (name, server). IsSound name server) config.servers
        × ((default : Text)
            → config.default ≡ some default
            → contains_key default config.servers ≡ true)
  unfolding validate_config_credential_references
  validated_config config h =
      let (u, d, k) = >>=-eq-ok (validate_default b64 ns config.default config.servers) _ h in
      let (owners, s, l) = >>=-eq-ok (validate_servers b64 ns config.servers []) _ k in
      let (sound, r) = IsSound-servers config.servers [] owners s in
      (
        (register-NodupKeys (claims_servers config.servers) [] owners r).0,
        sound,
        λ default e. ground arith,
      )
