-- ===== src/Src/CancelOrder.antt =====
-- programs/cross-chain-escrow-src/src/lib.rs: `cancel_order` and `cancel_order_by_resolver` with
-- their accounts. The framework closes the order into the creator's account after each.
pub mod Returns
pub mod Outcome
use solana_crosschain_protoc.Base.{
  ℕ, Bool, true, false, not, Option, none, some, List, [], ◌∷◌, ◌++◌, Result, ok, runtime, ◌>>=◌,
  ◌>>◌, ◌==◌, leb, ltb, min, if◌then◌else◌, require, check, ok_or, escrow_error, sub64,
  invalid_account, invalid_mint, inconsistent_native_trait, missing_creator_ata, order_not_expired,
  cancel_order_by_resolver_is_forbidden,
}
use solana_crosschain_protoc.Ledger.{Ledger, get_current_timestamp}
use solana_crosschain_protoc.Platform.{Platform}
use solana_crosschain_protoc.Platform.Accounts.{
  MintInfo, TokenInfo, load_mint, signer, load_associated, load_optional, check_seeds,
}
use solana_crosschain_protoc.Common.Escrow.{native_transfer, token_transfer, uni_transfer}
use solana_crosschain_protoc.Src.Auction.{calculate_premium}
use solana_crosschain_protoc.Src.State.{Order}
use solana_crosschain_protoc.Src.Accounts.{src_id, order_seeds, load_order, check_resolver}
use solana_crosschain_protoc.Src.CreateEscrow.{order_signer}

pub record CancelOrder : Type 0 where
  pub creator : ℕ
  pub mint : ℕ
  pub order : ℕ
  pub order_ata : ℕ
  pub creator_ata : Option ℕ
  pub token_program : ℕ

-- The accounts of `CancelOrder`, where the creator need not sign, and three more.
pub record CancelOrderByResolver : Type 0 where
  pub cancel : CancelOrder
  pub resolver : ℕ
  pub resolver_access : ℕ
  pub system_program : ℕ

-- The accounts as read at the start.
pub record OrderAccounts : Type 0 where
  pub mint : MintInfo
  pub order : Order
  pub order_ata : TokenInfo
  pub creator_ata : Option TokenInfo

-- `creator_ata.is_none()`
abbrev pub is_none : Option TokenInfo → Bool
is_none none = true
is_none (some _) = false

abbrev pub same_trait : Bool → Bool → Bool
same_trait true b = b
same_trait false b = not b

module _ (p : Platform) where
  -- What both instructions ask of the accounts that they share.
  unfoldable pub load_order_accounts : CancelOrder → Ledger → Result OrderAccounts
  load_order_accounts a l = do
    mint ← load_mint l a.mint
    order ← load_order l a.order
    require (a.creator == order.creator) invalid_account
    require (a.mint == order.token) invalid_mint
    check (not (a.order == a.creator)) (runtime 2011)
    check_seeds p a.order (order_seeds order.order_hash) order.bump src_id
    order_ata ← load_associated p l a.order_ata a.mint a.order a.token_program
    creator_ata ← load_optional p l a.creator_ata a.mint a.creator a.token_program
    ok (record { mint = mint; order = order; order_ata = order_ata; creator_ata = creator_ata })

  -- The tokens of an order go back to its creator, unless they are wrapped lamports.
  unfoldable pub return_tokens : CancelOrder → OrderAccounts → Ledger → Result Ledger
  return_tokens a c l =
      if not c.order.asset_is_native
      then (do
        to ← ok_or c.creator_ata (escrow_error missing_creator_ata)
        uni_transfer p
            (token_transfer c.order_ata.key a.order to.key c.mint c.order_ata.amount
              a.token_program)
            (some (order_signer c.order)) l)
      else ok l

  module _ (signed : ℕ → Bool) where
    unfoldable pub cancel_order : CancelOrder → Ledger → Result Ledger
    cancel_order a l = do
      signer signed a.creator
      c ← load_order_accounts a l
      require (same_trait c.order.asset_is_native (is_none c.creator_ata)) inconsistent_native_trait
      l₁ ← return_tokens a c l
      l₂ ←
          p.close_account a.token_program c.order_ata.key a.creator a.order
            (some (order_signer c.order)) l₁
      p.close a.order a.creator l₂

    unfoldable pub cancel_order_by_resolver : CancelOrderByResolver → ℕ → Ledger → Result Ledger
    cancel_order_by_resolver b reward_limit l = do
      let a = b.cancel
      check_resolver p signed src_id b.resolver b.resolver_access l
      c ← load_order_accounts a l
      let now = get_current_timestamp l
      require (leb c.order.expiration_time now) order_not_expired
      require (ltb 0 c.order.max_cancellation_premium) cancel_order_by_resolver_is_forbidden
      require (same_trait c.order.asset_is_native (is_none c.creator_ata)) inconsistent_native_trait
      l₁ ← return_tokens a c l
      cancellation_premium ←
          calculate_premium now c.order.expiration_time c.order.cancellation_auction_duration
            c.order.max_cancellation_premium
      maker_amount ← sub64 (l₁.lamports c.order_ata.key) (min cancellation_premium reward_limit)
      l₂ ←
          p.close_account a.token_program c.order_ata.key b.resolver a.order
            (some (order_signer c.order)) l₁
      l₃ ←
          uni_transfer p (native_transfer b.resolver a.creator maker_amount b.system_program) none
            l₂
      p.close a.order a.creator l₃
