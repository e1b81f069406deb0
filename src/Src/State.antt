-- ===== src/Src/State.antt =====
-- programs/cross-chain-escrow-src/src/lib.rs: the two accounts of the program. Keys and 32-byte
-- hashes are numbers below 2^256 (Base/Bytes.antt); the integers are in the ranges of their types.
use solana_crosschain_protoc.Base.{ℕ, ◌+◌, Bool}
use solana_crosschain_protoc.Uint256.{U256}

pub record Order : Type 0 where
  pub order_hash : ℕ
  pub hashlock : ℕ
  pub creator : ℕ
  pub token : ℕ
  pub amount : ℕ
  pub remaining_amount : ℕ
  pub safety_deposit : ℕ
  pub timelocks : U256
  pub expiration_time : ℕ
  pub asset_is_native : Bool
  pub dst_amount : U256
  pub dutch_auction_data_hash : ℕ
  pub max_cancellation_premium : ℕ
  pub cancellation_auction_duration : ℕ
  pub allow_multiple_fills : Bool
  pub bump : ℕ

pub record EscrowSrc : Type 0 where
  pub order_hash : ℕ
  pub hashlock : ℕ
  pub maker : ℕ
  pub taker : ℕ
  pub token : ℕ
  pub amount : ℕ
  pub safety_deposit : ℕ
  pub timelocks : U256
  pub asset_is_native : Bool
  pub dst_amount : U256
  pub bump : ℕ

-- The derived `INIT_SPACE`s: the widths of the fields, in their order.
abbrev pub order_space : ℕ
order_space = 32 + 32 + 32 + 32 + 8 + 8 + 8 + 32 + 4 + 1 + 32 + 32 + 8 + 4 + 1 + 1

abbrev pub escrow_src_space : ℕ
escrow_src_space = 32 + 32 + 32 + 32 + 32 + 8 + 8 + 32 + 1 + 32 + 1
