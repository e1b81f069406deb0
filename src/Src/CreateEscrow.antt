-- ===== src/Src/CreateEscrow.antt =====
-- programs/cross-chain-escrow-src/src/lib.rs: `create_escrow`, by which a taker fills an order or
-- a part of it.
pub mod Loads
pub mod Effects
pub mod Outcome
pub mod Trace
use solana_crosschain_protoc.Base.{
  ℕ, ◌-◌, ◌%◌, ◌/◌, ◌^◌, Bool, true, false, not, ◌&&◌, ◌||◌, Option, none, some, List, [], ◌∷◌,
  ◌++◌, Result, ok, ◌>>=◌, ◌>>◌, ◌==◌, leb, ltb, if◌then◌else◌, require, sub64, invalid_amount,
  order_has_expired, dutch_auction_data_hash_mismatch, inconsistent_merkle_proof_trait,
  invalid_merkle_proof, invalid_partial_fill,
}
use solana_crosschain_protoc.Base.Bytes.{be_bytes}
use solana_crosschain_protoc.Uint256.{U256}
use solana_crosschain_protoc.Ledger.{
  Ledger, order_data, escrow_src_data, store, get_current_timestamp,
}
use solana_crosschain_protoc.Platform.{Platform}
use solana_crosschain_protoc.Platform.Accounts.{MintInfo, TokenInfo}
use solana_crosschain_protoc.Common.Timelocks.{Timelocks, set_deployed_at, get_timelocks}
use solana_crosschain_protoc.Common.Escrow.{Seeds, token_transfer, uni_transfer}
use solana_crosschain_protoc.Src.Auction.{AuctionData}
use solana_crosschain_protoc.Src.Merkle.{MerkleProof, process_proof}
use solana_crosschain_protoc.Src.Fill.{is_valid_partial_fill}
use solana_crosschain_protoc.Src.DstAmount.{escrow_dst_amount}
use solana_crosschain_protoc.Src.State.{Order, EscrowSrc}
use solana_crosschain_protoc.Src.Accounts.{order_seeds}
use solana_crosschain_protoc.Src.Accounts.Fill.{CreateEscrow, FillAccounts, load_create_escrow}

-- The seeds with which the program signs for an order.
unfoldable pub order_signer : Order → Seeds
order_signer o = order_seeds o.order_hash ++ be_bytes 1 o.bump ∷ []

abbrev pub is_some : Option MerkleProof → Bool
is_some none = false
is_some (some _) = true

abbrev pub same_bool : Bool → Bool → Bool
same_bool true b = b
same_bool false b = not b

-- The amounts that an order takes.
unfoldable pub amount_allowed : Order → ℕ → Bool
amount_allowed o amount =
    (o.allow_multiple_fills && leb amount o.remaining_amount)
    || (not o.allow_multiple_fills && amount == o.amount)

-- `!order.allow_multiple_fills || order.remaining_amount == amount`
unfoldable pub completes : Order → ℕ → Bool
completes o amount = not o.allow_multiple_fills || o.remaining_amount == amount

module _ (p : Platform) where
  -- The hashlock of the new escrow: that of the proof, which is checked, or the order's.
  unfoldable pub fill_hashlock : Order → ℕ → Option MerkleProof → Result ℕ
  fill_hashlock o amount none = ok o.hashlock
  fill_hashlock o amount (some proof) = do
    require (process_proof p.hashv proof % 2 ^ 240 == o.hashlock % 2 ^ 240) invalid_merkle_proof
    valid ←
        is_valid_partial_fill amount o.remaining_amount o.amount (o.hashlock / 2 ^ 240) proof.index
    require valid invalid_partial_fill
    ok proof.hashed_secret

  -- What the escrow account is set to.
  unfoldable pub new_escrow : Order → ℕ → ℕ → ℕ → ℕ → U256 → ℕ → EscrowSrc
  new_escrow o taker amount hashlock now dst_amount bump = record {
    order_hash = o.order_hash;
    hashlock = hashlock;
    maker = o.creator;
    taker = taker;
    token = o.token;
    amount = amount;
    safety_deposit = o.safety_deposit;
    timelocks = get_timelocks (set_deployed_at p.u256 (record { word = o.timelocks }) now);
    asset_is_native = o.asset_is_native;
    dst_amount = dst_amount;
    bump = bump;
  }

  -- What becomes of the order: it is closed into the maker's account, or keeps what remains.
  unfoldable pub finish_order : CreateEscrow → Order → ℕ → Ledger → Result Ledger
  finish_order a o amount l =
      if completes o amount
      then (do
        l₁ ← p.close_account a.token_program a.order_ata a.maker a.order (some (order_signer o)) l
        p.close a.order a.maker l₁)
      else (do
        remaining ← sub64 o.remaining_amount amount
        ok (store a.order (some (order_data (record o { remaining_amount = remaining }))) l))

  unfoldable pub create_escrow :
      (ℕ → Bool) → CreateEscrow → ℕ → Option MerkleProof → AuctionData → Ledger → Result Ledger
  create_escrow signed a amount merkle_proof dutch_auction_data l = do
    c ← load_create_escrow p signed a amount merkle_proof l
    let o = c.order
    require (amount_allowed o amount) invalid_amount
    let now = get_current_timestamp l
    require (ltb now o.expiration_time) order_has_expired
    require (p.hashv (p.encode_auction dutch_auction_data ∷ []) == o.dutch_auction_data_hash)
        dutch_auction_data_hash_mismatch
    require (same_bool o.allow_multiple_fills (is_some merkle_proof))
        inconsistent_merkle_proof_trait
    hashlock ← fill_hashlock o amount merkle_proof
    let amount_to_transfer = if o.remaining_amount == amount then c.order_ata.amount else amount
    l₁ ←
        uni_transfer p
          (token_transfer c.order_ata.key a.order c.escrow_ata.key c.mint amount_to_transfer
            a.token_program)
          (some (order_signer o)) c.ledger
    dst_amount ←
        escrow_dst_amount p.u256 l.unix_timestamp o.dst_amount amount o.amount dutch_auction_data
    let l₂ =
        store a.escrow
          (some (escrow_src_data (new_escrow o a.taker amount hashlock now dst_amount c.bump))) l₁
    finish_order a o amount l₂
