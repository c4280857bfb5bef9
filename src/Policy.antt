-- ===== src/Policy.antt =====
-- The policy allowlists (src/policy.rs): their data. The matching of commands and paths, the
-- explanations and the policy file are in the modules below.
pub mod Paths
pub mod Commands
pub mod Explain
pub mod File
use sshw.Base.{ℕ, Bool, false, Text, List, []}

pub record AccountRule : Type 0 where
  pub server : Text
  pub user : Text

-- `POLICY_VERSION` and `LEGACY_POLICY_VERSION`.
abbrev pub policy_version : ℕ
policy_version = 2

abbrev pub legacy_policy_version : ℕ
legacy_policy_version = 1

pub record PolicyFile : Type 0 where
  pub version : ℕ
  pub enabled : Bool
  pub allow_commands : List Text
  pub allow_put_paths : List Text
  pub allow_get_paths : List Text
  pub allow_accounts : List AccountRule

abbrev pub default_policy_file : PolicyFile
default_policy_file = record {
  version = policy_version;
  enabled = false;
  allow_commands = [];
  allow_put_paths = [];
  allow_get_paths = [];
  allow_accounts = [];
}

pub record PolicyRules : Type 0 where
  pub allow_commands : List Text
  pub allow_put_paths : List Text
  pub allow_get_paths : List Text
  pub allow_accounts : List AccountRule

pub data Policy : Type 0 where
  disabled : Policy
  enabled : PolicyRules → Policy
