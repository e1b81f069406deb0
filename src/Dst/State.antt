-- ===== src/Dst/State.antt =====
-- programs/cross-chain-escrow-dst/src/lib.rs: the account of the program.
use solana_crosschain_protoc.Base.{ℕ, ◌+◌, Bool}
use solana_crosschain_protoc.Uint256.{U256}

pub record EscrowDst : Type 0 where
  pub order_hash : ℕ
  pub hashlock : ℕ
  pub creator : ℕ
  pub recipient : ℕ
  pub token : ℕ
  pub asset_is_native : Bool
  pub amount : ℕ
  pub safety_deposit : ℕ
  pub timelocks : U256
  pub bump : ℕ

abbrev pub escrow_dst_space : ℕ
escrow_dst_space = 32 + 32 + 32 + 32 + 32 + 1 + 8 + 8 + 32 + 1
