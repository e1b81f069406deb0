-- ===== src/Src/Create/Outcome.antt =====
-- What a new order is.
use solana_crosschain_protoc.Base.{[], ◌∷◌, ℕ, ◌+◌, ◌/◌, ◌^◌, ◌≤◌, ◌<◌, ◌≡◌, Bool, true, some}
use solana_crosschain_protoc.Base.Bytes.{be_bytes}
use solana_crosschain_protoc.Ledger.{Ledger, order_data, get_current_timestamp}
use solana_crosschain_protoc.Platform.{Platform}
use solana_crosschain_protoc.Common.Constants.{discriminator_bytes}
use solana_crosschain_protoc.Common.Timelocks.{set_deployed_at}
use solana_crosschain_protoc.Src.State.{escrow_src_space}
use solana_crosschain_protoc.Src.Create.{flag, Create, OrderArgs}

module _ (p : Platform) where
  -- What `create` has checked and stored, where it succeeds.
  pub record Created (signed : ℕ → Bool) (a : Create) (args : OrderArgs) (l l' : Ledger)
      : Type 0 where
    pub signs : signed a.creator ≡ true
    pub bump : ℕ
    pub order_hash : ℕ
    pub order_hash_is :
        order_hash
        ≡ p.hashv (
            be_bytes 32 args.hashlock
            ∷ be_bytes 32 a.creator
            ∷ be_bytes 32 a.mint
            ∷ be_bytes 8 args.amount
            ∷ be_bytes 8 args.safety_deposit
            ∷ p.encode_limbs args.timelocks
            ∷ be_bytes 4 args.expiration_time
            ∷ be_bytes 1 (flag args.asset_is_native)
            ∷ p.encode_limbs args.dst_amount
            ∷ be_bytes 32 args.dutch_auction_data_hash
            ∷ be_bytes 8 args.max_cancellation_premium
            ∷ be_bytes 4 args.cancellation_auction_duration
            ∷ be_bytes 1 (flag args.allow_multiple_fills)
            ∷ be_bytes 8 args.salt
            ∷ [])
    pub stored :
        l'.accounts a.order
        ≡ some (
            order_data (record {
              order_hash = order_hash;
              hashlock = args.hashlock;
              creator = a.creator;
              token = a.mint;
              amount = args.amount;
              remaining_amount = args.amount;
              safety_deposit = args.safety_deposit;
              timelocks =
                  (set_deployed_at p.u256
                    (record { word = args.timelocks })
                    (get_current_timestamp l)).word;
              expiration_time = args.expiration_time;
              asset_is_native = args.asset_is_native;
              dst_amount = args.dst_amount;
              dutch_auction_data_hash = args.dutch_auction_data_hash;
              max_cancellation_premium = args.max_cancellation_premium;
              cancellation_auction_duration = args.cancellation_auction_duration;
              allow_multiple_fills = args.allow_multiple_fills;
              bump = bump;
            }))
    pub several_parts : args.allow_multiple_fills ≡ true → 1 < args.hashlock / 2 ^ 240
    pub not_expired : get_current_timestamp l < args.expiration_time
    pub amount_positive : 0 < args.amount
    pub deposit_positive : 0 < args.safety_deposit
    pub deposit_in_rent :
        args.safety_deposit ≤ p.minimum_balance (escrow_src_space + discriminator_bytes)
    pub native_matches : args.asset_is_native ≡ true → a.mint ≡ p.native_mint
