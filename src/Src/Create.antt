-- ===== src/Src/Create.antt =====
-- programs/cross-chain-escrow-src/src/lib.rs: `create` with its accounts, and `get_order_hash`, by
-- which a maker opens an order.
pub mod Outcome
use solana_crosschain_protoc.Base.{
  ℕ, ◌+◌, ◌/◌, ◌^◌, Bool, true, false, not, ◌&&◌, ◌||◌, Option, none, some, List, [], ◌∷◌, Result,
  ok, ◌>>=◌, ◌>>◌, ◌==◌, leb, ltb, if◌then◌else◌, require, ok_or, escrow_error,
  invalid_cancellation_fee, invalid_parts_amount, order_has_expired, zero_amount_or_deposit,
  safety_deposit_too_large, inconsistent_native_trait, missing_creator_ata,
}
use solana_crosschain_protoc.Base.Bytes.{be_bytes}
use solana_crosschain_protoc.Uint256.{U256}
use solana_crosschain_protoc.Ledger.{Ledger, order_data, store, get_current_timestamp}
use solana_crosschain_protoc.Platform.{Platform}
use solana_crosschain_protoc.Platform.Accounts.{
  MintInfo, TokenInfo, load_mint, signer, load_optional, init_associated, find_bump,
}
use solana_crosschain_protoc.Common.Constants.{discriminator_bytes}
use solana_crosschain_protoc.Common.Timelocks.{Timelocks, set_deployed_at, get_timelocks}
use solana_crosschain_protoc.Common.Escrow.{native_transfer, token_transfer, uni_transfer}
use solana_crosschain_protoc.Src.State.{Order, order_space, escrow_src_space}
use solana_crosschain_protoc.Src.Accounts.{src_id, order_seeds}

pub record Create : Type 0 where
  pub creator : ℕ
  pub mint : ℕ
  pub creator_ata : Option ℕ
  pub order : ℕ
  pub order_ata : ℕ
  pub token_program : ℕ
  pub system_program : ℕ

-- The arguments of `create` but for the parameters of the other chain, which it does not read.
pub record OrderArgs : Type 0 where
  pub hashlock : ℕ
  pub amount : ℕ
  pub safety_deposit : ℕ
  pub timelocks : U256
  pub expiration_time : ℕ
  pub asset_is_native : Bool
  pub dst_amount : U256
  pub dutch_auction_data_hash : ℕ
  pub max_cancellation_premium : ℕ
  pub cancellation_auction_duration : ℕ
  pub allow_multiple_fills : Bool
  pub salt : ℕ

-- The accounts as read at the start, and the ledger with the new ones in it.
pub record Creation : Type 0 where
  pub mint : MintInfo
  pub creator_ata : Option TokenInfo
  pub order_ata : TokenInfo
  pub bump : ℕ
  pub ledger : Ledger

-- `b as u8`
abbrev pub flag : Bool → ℕ
flag true = 1
flag false = 0

-- What the order account is set to.
unfoldable pub new_order : Create → OrderArgs → ℕ → Timelocks → ℕ → Order
new_order a args order_hash updated_timelocks bump = record {
  order_hash = order_hash;
  hashlock = args.hashlock;
  creator = a.creator;
  token = a.mint;
  amount = args.amount;
  remaining_amount = args.amount;
  safety_deposit = args.safety_deposit;
  timelocks = get_timelocks updated_timelocks;
  expiration_time = args.expiration_time;
  asset_is_native = args.asset_is_native;
  dst_amount = args.dst_amount;
  dutch_auction_data_hash = args.dutch_auction_data_hash;
  max_cancellation_premium = args.max_cancellation_premium;
  cancellation_auction_duration = args.cancellation_auction_duration;
  allow_multiple_fills = args.allow_multiple_fills;
  bump = bump;
}

module _ (p : Platform) where
  -- The arguments, with the maker and the token.
  unfoldable pub get_order_hash : OrderArgs → ℕ → ℕ → ℕ
  get_order_hash args maker token = p.hashv (
      be_bytes 32 args.hashlock
      ∷ be_bytes 32 maker
      ∷ be_bytes 32 token
      ∷ be_bytes 8 args.amount
      ∷ be_bytes 8 args.safety_deposit
      ∷ p.encode_limbs args.timelocks
      ∷ be_bytes 4 args.expiration_time
      ∷ be_bytes 1 (flag args.asset_is_native)
      ∷ p.encode_limbs args.dst_amount
      ∷ be_bytes 32 args.dutch_auction_data_hash
      ∷ be_bytes 8 args.max_cancellation_premium
      ∷ be_bytes 4 args.cancellation_auction_duration
      ∷ be_bytes 1 (flag args.allow_multiple_fills)
      ∷ be_bytes 8 args.salt
      ∷ [])

  -- The deposit of the assets: lamports are wrapped.
  unfoldable pub fund_order : Create → Creation → ℕ → Bool → Ledger → Result Ledger
  fund_order a c amount true l = do
    l₁ ← uni_transfer p (native_transfer a.creator c.order_ata.key amount a.system_program) none l
    p.sync_native a.token_program c.order_ata.key l₁
  fund_order a c amount false l = do
    from ← ok_or c.creator_ata (escrow_error missing_creator_ata)
    uni_transfer p (token_transfer from.key a.creator c.order_ata.key c.mint amount a.token_program)
        none l

  module _ (signed : ℕ → Bool) where
    unfoldable pub load_create : Create → OrderArgs → Ledger → Result Creation
    unfolding get_order_hash
    load_create a args l = do
      signer signed a.creator
      mint ← load_mint l a.mint
      creator_ata ← load_optional p l a.creator_ata a.mint a.creator a.token_program
      bump ← find_bump p a.order (order_seeds (get_order_hash args a.creator a.mint)) src_id
      l₁ ← p.init_account a.creator a.order (discriminator_bytes + order_space) src_id l
      (order_ata, l₂) ← init_associated p l₁ a.creator a.order_ata a.mint a.order a.token_program
      ok (record {
        mint = mint;
        creator_ata = creator_ata;
        order_ata = order_ata;
        bump = bump;
        ledger = l₂;
      })

    unfoldable pub create : Create → OrderArgs → Ledger → Result Ledger
    create a args l = do
      c ← load_create a args l
      require (leb args.max_cancellation_premium (c.ledger.lamports c.order_ata.key))
          invalid_cancellation_fee
      require (not args.allow_multiple_fills || ltb 1 (args.hashlock / 2 ^ 240))
          invalid_parts_amount
      let now = get_current_timestamp l
      require (ltb now args.expiration_time) order_has_expired
      let order_hash = get_order_hash args a.creator a.mint
      require (not (args.amount == 0) && not (args.safety_deposit == 0)) zero_amount_or_deposit
      let rent_exempt_reserve = p.minimum_balance (escrow_src_space + discriminator_bytes)
      require (leb args.safety_deposit rent_exempt_reserve) safety_deposit_too_large
      require (a.mint == p.native_mint || not args.asset_is_native) inconsistent_native_trait
      l₁ ← fund_order a c args.amount args.asset_is_native c.ledger
      let updated_timelocks = set_deployed_at p.u256 (record { word = args.timelocks }) now
      ok (
          store a.order (some (order_data (new_order a args order_hash updated_timelocks c.bump)))
            l₁)
