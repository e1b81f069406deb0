-- ===== src/Whitelist/State.antt =====
-- programs/whitelist/src/lib.rs: the two accounts of the program.
use solana_crosschain_protoc.Base.{ℕ}

pub record WhitelistState : Type 0 where
  pub authority : ℕ

pub record ResolverAccess : Type 0 where
  pub bump : ℕ

abbrev pub whitelist_state_space : ℕ
whitelist_state_space = 32

abbrev pub resolver_access_space : ℕ
resolver_access_space = 1
