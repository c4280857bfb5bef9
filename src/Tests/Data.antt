-- ===== src/Tests/Data.antt =====
-- A configuration, a policy and instances of the libraries, for the runs.
use sshw.Base.{
  ◌+◌, ◌-◌, false, Text, codes, [], ◌∷◌, Option, none, some, ◌≡◌, refl, arith, map, ◌==◌, AllOf,
}
use sshw.Home.{CredentialNamespace, profile_namespace}
use sshw.Home.Keys.{Base64, IsBase64}
use sshw.Policy.{PolicyRules}
use sshw.Policy.File.{Json}
use sshw.Config.{config_version, SshwConfig, ServerConfig, AccountConfig, password, agent, native}
use sshw.Config.File.{ConfigJson}

abbrev pub web : Text
web = codes "web"

abbrev pub deploy : Text
deploy = codes "deploy"

abbrev pub admin : Text
admin = codes "admin"

abbrev pub deploy_account : AccountConfig
deploy_account = record { auth = agent; privilege = none }

abbrev pub admin_account : AccountConfig
admin_account = record { auth = password (codes "key"); privilege = none }

abbrev pub web_server : ServerConfig
web_server = record {
  host = codes "web.example";
  port = 22;
  default_user = deploy;
  accounts = (admin, admin_account) ∷ (deploy, deploy_account) ∷ [];
}

abbrev pub settings : SshwConfig
settings = record {
  version = config_version;
  default = some web;
  servers = (web, web_server) ∷ [];
  credential_backend = native;
}

abbrev pub rules : PolicyRules
rules = record {
  allow_commands = codes "uptime" ∷ codes "git status *" ∷ [];
  allow_put_paths = codes "/srv/app" ∷ [];
  allow_get_paths = codes "/var/log" ∷ [];
  allow_accounts = [];
}

-- A JSON library that reads every document as one without a version.
abbrev pub policy_json : Json
policy_json = record {
  Value = Text;
  parse = λ text. some text;
  get_version = λ value. none;
  as_u64 = λ value. none;
  policy_v1 = λ value. some (record {
    enabled = false;
    allow_commands = value ∷ [];
    allow_put_paths = [];
    allow_get_paths = [];
  });
  policy_v2 = λ value. none;
  print_policy = λ file. codes "policy";
}

abbrev pub shown : Option Text → Text
shown none = codes "null"
shown (some name) = name

abbrev pub config_json : ConfigJson
config_json = record {
  Value = Text;
  parse = λ text. some text;
  version_u64 = λ value. some 2;
  config_v2 = λ value. some (record { default = none; servers = []; credential_backend = native });
  config_v1 = λ value. none;
  print_config = λ config. shown config.default;
}

-- An encoding that moves every byte behind the colon.
abbrev pub shifted : Base64
shifted = record { encode = map (λ b. b + 59); decode = λ text. some (map (λ c. c - 59) text) }

unshift : (bytes : Text) → map (λ c. c - 59) (map (λ b. b + 59) bytes) ≡ bytes
unshift [] = refl
unshift (b ∷ bytes) = ground (arith, unshift bytes)

no_colon : (bytes : Text) → AllOf (λ c. (c == b':') ≡ false) (map (λ b. b + 59) bytes)
no_colon [] = tt
no_colon (b ∷ bytes) = (ground arith, no_colon bytes)

pub shifted-IsBase64 : IsBase64 shifted
shifted-IsBase64 = record {
  decode-encode = λ bytes. ground (arith, unshift bytes);
  encode_lacks_colon = no_colon;
}

abbrev pub namespace : CredentialNamespace
namespace = profile_namespace (codes "p_1")
