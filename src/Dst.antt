-- ===== src/Dst.antt =====
-- programs/cross-chain-escrow-dst/src: the escrow that a taker opens for the maker on the other
-- chain, src/lib.rs and `withdraw` of src/utils.rs. The framework closes the escrow account into
-- the creator's after a withdrawal and a cancellation.
pub mod State
pub mod Accounts
pub mod Loads
pub mod Settled
pub mod Created
pub mod Funded
pub mod Rescued
use solana_crosschain_protoc.Base.{
  ℕ, ◌+◌, Bool, true, false, not, ◌&&◌, ◌||◌, Option, none, some, List, [], ◌∷◌, ◌++◌, Result, ok,
  ◌>>=◌, ◌>>◌, ◌==◌, leb, require, ok_or, escrow_error, invalid_secret, invalid_time,
  invalid_creation_time, zero_amount_or_deposit, safety_deposit_too_large,
  inconsistent_native_trait, missing_creator_ata,
}
use solana_crosschain_protoc.Base.Bytes.{be_bytes}
use solana_crosschain_protoc.Uint256.{U256}
use solana_crosschain_protoc.Ledger.{Ledger, escrow_dst_data, store, get_current_timestamp}
use solana_crosschain_protoc.Platform.{Platform}
use solana_crosschain_protoc.Platform.Accounts.{MintInfo, TokenInfo}
use solana_crosschain_protoc.Common.Constants.{discriminator_bytes, rescue_delay}
use solana_crosschain_protoc.Common.Timelocks.{
  Timelocks, get, set_deployed_at, get_timelocks, rescue_start, dst_withdrawal,
  dst_public_withdrawal, dst_cancellation,
}
use solana_crosschain_protoc.Common.Timelocks.Windows.{in_window}
use solana_crosschain_protoc.Common.Escrow.{
  Seeds, native_transfer, token_transfer, uni_transfer, process_payout, rescue_funds,
}
use solana_crosschain_protoc.Src.Accounts.{escrow_seeds}
use solana_crosschain_protoc.Src.Settle.{distribute_safety_deposit}
use solana_crosschain_protoc.Dst.State.{EscrowDst, escrow_dst_space}
use solana_crosschain_protoc.Dst.Accounts.{
  Create, Creation, Withdraw, PublicWithdraw, Cancel, RescueFunds, load_create, load_withdraw,
  load_public_withdraw, load_cancel, load_rescue_funds, load_escrow_dst,
}

-- The arguments of `create`.
pub record CreateArgs : Type 0 where
  pub order_hash : ℕ
  pub hashlock : ℕ
  pub amount : ℕ
  pub safety_deposit : ℕ
  pub recipient : ℕ
  pub timelocks : U256
  pub src_cancellation_timestamp : ℕ
  pub asset_is_native : Bool

-- The seeds with which the program signs for an escrow.
unfoldable pub signer_seeds : EscrowDst → Seeds
signer_seeds e = escrow_seeds e.order_hash e.hashlock e.creator e.amount ++ be_bytes 1 e.bump ∷ []

-- `Timelocks(U256(escrow.timelocks))`
abbrev pub timelocks_of : EscrowDst → Timelocks
timelocks_of e = record { word = e.timelocks }

-- What the escrow account is set to.
unfoldable pub new_escrow : Create → CreateArgs → Timelocks → ℕ → EscrowDst
new_escrow a args updated_timelocks bump = record {
  order_hash = args.order_hash;
  hashlock = args.hashlock;
  creator = a.creator;
  recipient = args.recipient;
  token = a.mint;
  asset_is_native = args.asset_is_native;
  amount = args.amount;
  safety_deposit = args.safety_deposit;
  timelocks = get_timelocks updated_timelocks;
  bump = bump;
}

module _ (p : Platform) where
  -- The deposit of the assets.
  unfoldable pub deposit : Create → Creation → ℕ → Bool → Ledger → Result Ledger
  deposit a c amount true l =
      uni_transfer p (native_transfer a.creator c.escrow_ata.key amount a.system_program) none l
  deposit a c amount false l = do
    from ← ok_or c.creator_ata (escrow_error missing_creator_ata)
    uni_transfer p
        (token_transfer from.key a.creator c.escrow_ata.key c.mint amount a.token_program) none l

  -- `utils::withdraw`
  unfoldable pub utils_withdraw :
      EscrowDst
      → ℕ
      → TokenInfo
      → ℕ
      → Option TokenInfo
      → MintInfo
      → ℕ
      → ℕ
      → ℕ
      → ℕ
      → Ledger
      → Result Ledger
  utils_withdraw escrow escrow_key escrow_ata recipient recipient_ata mint token_program
        rent_recipient safety_deposit_recipient secret l =
      do
        require (p.hash (be_bytes 32 secret) == escrow.hashlock) invalid_secret
        l₁ ←
            process_payout p mint escrow.asset_is_native escrow.amount escrow_key escrow_ata
              recipient recipient_ata rent_recipient (signer_seeds escrow) token_program l
        distribute_safety_deposit p escrow_key escrow.safety_deposit rent_recipient
            safety_deposit_recipient l₁

  module _ (signed : ℕ → Bool) where
    unfoldable pub create : Create → CreateArgs → Ledger → Result Ledger
    create a args l = do
      c ← load_create p signed a args.order_hash args.hashlock args.amount l
      let updated_timelocks =
          set_deployed_at p.u256 (record { word = args.timelocks }) (get_current_timestamp l)
      cancellation_start ← get p.u256 updated_timelocks dst_cancellation
      require (leb cancellation_start args.src_cancellation_timestamp) invalid_creation_time
      require (not (args.amount == 0) && not (args.safety_deposit == 0)) zero_amount_or_deposit
      let rent_exempt_reserve = p.minimum_balance (escrow_dst_space + discriminator_bytes)
      require (leb args.safety_deposit rent_exempt_reserve) safety_deposit_too_large
      require (a.mint == p.native_mint || not args.asset_is_native) inconsistent_native_trait
      l₁ ← deposit a c args.amount args.asset_is_native c.ledger
      ok (store a.escrow (some (escrow_dst_data (new_escrow a args updated_timelocks c.bump))) l₁)

    unfoldable pub withdraw : Withdraw → ℕ → Ledger → Result Ledger
    withdraw a secret l = do
      (c, l₀) ← load_withdraw p signed a l
      open_now ←
          in_window p.u256 (timelocks_of c.escrow) (get_current_timestamp l) dst_withdrawal
            dst_cancellation
      require open_now invalid_time
      l' ←
          utils_withdraw c.escrow a.escrow c.escrow_ata a.recipient c.recipient_ata c.mint
            a.token_program a.creator a.creator secret l₀
      p.close a.escrow a.creator l'

    unfoldable pub public_withdraw : PublicWithdraw → ℕ → Ledger → Result Ledger
    public_withdraw b secret l = do
      let a = b.withdraw
      (c, l₀) ← load_public_withdraw p signed b l
      open_now ←
          in_window p.u256 (timelocks_of c.escrow) (get_current_timestamp l) dst_public_withdrawal
            dst_cancellation
      require open_now invalid_time
      l' ←
          utils_withdraw c.escrow a.escrow c.escrow_ata a.recipient c.recipient_ata c.mint
            a.token_program a.creator b.payer secret l₀
      p.close a.escrow a.creator l'

    unfoldable pub cancel : Cancel → Ledger → Result Ledger
    cancel a l = do
      c ← load_cancel p signed a l
      start ← get p.u256 (timelocks_of c.escrow) dst_cancellation
      require (leb start (get_current_timestamp l)) invalid_time
      l' ←
          process_payout p c.mint c.escrow.asset_is_native c.escrow.amount a.escrow c.escrow_ata
            a.creator c.creator_ata a.creator (signer_seeds c.escrow) a.token_program l
      p.close a.escrow a.creator l'

    -- The time from which funds can be rescued: none where the escrow is closed.
    unfoldable pub escrow_rescue_start : ℕ → Ledger → Result (Option ℕ)
    escrow_rescue_start escrow l = elim (l.accounts escrow) [
      | none ↦ ok none
      | some _ ↦ do
        e ← load_escrow_dst l escrow
        start ← rescue_start p.u256 (timelocks_of e) rescue_delay
        ok (some start)
    ]

    unfoldable pub rescue_escrow_funds : RescueFunds → ℕ → ℕ → ℕ → ℕ → Ledger → Result Ledger
    rescue_escrow_funds a order_hash hashlock escrow_amount rescue_amount l = do
      c ← load_rescue_funds p signed a order_hash hashlock escrow_amount l
      start ← escrow_rescue_start a.escrow l
      rescue_funds p a.escrow start c.escrow_ata a.creator c.creator_ata.key c.mint a.token_program
          rescue_amount
          (escrow_seeds order_hash hashlock a.creator escrow_amount ++ be_bytes 1 c.bump ∷ []) l
