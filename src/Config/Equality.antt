-- ===== src/Config/Equality.antt =====
-- The derived equality of a configuration (src/config.rs).
use native.Mathlib.Decide.{ℕ_discrete}
use sshw.Base.{Eq}
use sshw.Config.{SshwConfig}

config_dec : Discrete SshwConfig
config_dec = hlevel ℕ_discrete

instance unfoldable pub config_eq : Eq SshwConfig
unfolding config_dec
config_eq = record { dec = config_dec }
