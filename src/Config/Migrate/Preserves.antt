-- ===== src/Config/Migrate/Preserves.antt =====
-- The migration keeps every server and every privilege, or refuses the document.
use sshw.Base.{
  List-cases, Text, List, [], ◌∷◌, Option, none, some, ◌≡◌, inl, inr, refl, arith, if◌then◌else◌,
  text_eq, is_some, Map, NodupKeys, get, insert, remove, keys, get-insert, get-remove,
}
use sshw.Errors.{ok}
use sshw.Config.{config_version, PrivilegeConfig, ServerConfig, SshwConfig}
use sshw.Config.Migrate.{ServerConfigV1, ConfigV1Wire, migrate_server, migrate_servers, migrate_v1}

-- The server that a server of the document and its privilege stand for, written out: one account,
-- with the user's own authentication and privilege.
abbrev pub expected : Option ServerConfigV1 → Option PrivilegeConfig → Option ServerConfig
expected none privilege = none
expected (some server) privilege = some (record {
  host = server.host;
  port = server.port;
  default_user = server.user;
  accounts = (server.user, record { auth = server.auth; privilege = privilege }) ∷ [];
})

abbrev or_other : {V : Type 0} → Option V → Option V → Option V
or_other none o = o
or_other (some v) o = some v

get-migrate_servers :
    (name : Text) (servers : Map ServerConfigV1) (privileges : Map PrivilegeConfig)
    (done : Map ServerConfig)
    → NodupKeys servers
    → get name (migrate_servers servers privileges done).0
      ≡ or_other (expected (get name servers) (get name privileges)) (get name done)
unfolding migrate_servers migrate_server insert get
get-migrate_servers name [] privileges done h = refl
get-migrate_servers name ((k, s) ∷ servers) privileges done (fresh, h) = ground (
  arith,
  get-migrate_servers name servers (remove k privileges)
      (insert k (migrate_server s (get k privileges)) done) h,
  get-remove k name privileges,
  get-insert k name (migrate_server s (get k privileges)) done,
)

left-migrate_servers :
    (name : Text) (servers : Map ServerConfigV1) (privileges : Map PrivilegeConfig)
    (done : Map ServerConfig)
    → get name (migrate_servers servers privileges done).1
      ≡ (if is_some (get name servers) then none else get name privileges)
unfolding migrate_servers get
left-migrate_servers name [] privileges done = refl
left-migrate_servers name ((k, s) ∷ servers) privileges done = ground (
  arith,
  left-migrate_servers name servers (remove k privileges)
      (insert k (migrate_server s (get k privileges)) done),
  get-remove k name privileges,
)

get_of_no_keys : {V : Type 0} (name : Text) (m : Map V) → keys m ≡ [] → get name m ≡ none
unfolding keys get
get_of_no_keys name [] h = refl
get_of_no_keys name ((k, v) ∷ m) h = cc

-- A migration that succeeds gives, under every name, the server of the document with its one account
-- and its privilege, and leaves no privilege behind. The default and the credential backend are those
-- of the document, and the version is the current one.
pub migrate_v1_preserves :
    (wire : ConfigV1Wire) (config : SshwConfig) (name : Text)
    → NodupKeys wire.servers
    → migrate_v1 wire ≡ ok config
    → (get name config.servers ≡ expected (get name wire.servers) (get name wire.privileges))
      × (get name wire.servers ≡ none → get name wire.privileges ≡ none)
      × (config.default ≡ wire.default)
      × (config.version ≡ config_version)
      × (config.credential_backend ≡ wire.credential_backend)
unfolding migrate_v1 get
migrate_v1_preserves wire config name h e =
    elim (List-cases (keys (migrate_servers wire.servers wire.privileges []).1)) [
      | inl none_left ↦
          let got = get-migrate_servers name wire.servers wire.privileges [] h in
          let left = left-migrate_servers name wire.servers wire.privileges [] in
          let gone = get_of_no_keys name _ none_left in
          (ground arith, λ no_server. ground arith, ground arith, ground arith, ground arith)
      | inr (orphan, more, q) ↦ absurd (ground arith)
    ]

get_of_first_key :
    {V : Type 0} (m : Map V) (k : Text) (ks : List Text)
    → keys m ≡ k ∷ ks
    → (v : V) × (get k m ≡ some v)
unfolding keys get
get_of_first_key [] k ks h = absurd (ground arith)
get_of_first_key ((j, v) ∷ m) k ks h = (v, ground arith)

-- A document in which every privilege has a server is migrated.
pub migrate_v1_total :
    (wire : ConfigV1Wire)
    → ((name : Text) → get name wire.servers ≡ none → get name wire.privileges ≡ none)
    → (config : SshwConfig) × (migrate_v1 wire ≡ ok config)
unfolding migrate_v1
migrate_v1_total wire h =
    elim (List-cases (keys (migrate_servers wire.servers wire.privileges []).1)) [
      | inl none_left ↦ (
        record {
          version = config_version;
          default = wire.default;
          servers = (migrate_servers wire.servers wire.privileges []).0;
          credential_backend = wire.credential_backend;
        },
        ground arith,
      )
      | inr (orphan, more, q) ↦
          let (v, found) = get_of_first_key _ orphan more q in
          absurd (
            ground
              (arith, left-migrate_servers orphan wire.servers wire.privileges [], h orphan, found))
    ]
