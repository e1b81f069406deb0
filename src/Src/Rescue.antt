-- ===== src/Src/Rescue.antt =====
-- programs/cross-chain-escrow-src/src/lib.rs: `rescue_funds_for_escrow` and
-- `rescue_funds_for_order` with their accounts.
use solana_crosschain_protoc.Base.{
  ℕ, Bool, Option, none, some, [], ◌∷◌, ◌++◌, Result, ok, ◌>>=◌, ◌>>◌,
}
use solana_crosschain_protoc.Base.Bytes.{be_bytes}
use solana_crosschain_protoc.Ledger.{Ledger}
use solana_crosschain_protoc.Platform.{Platform}
use solana_crosschain_protoc.Platform.Accounts.{load_mint, signer, load_associated, find_bump}
use solana_crosschain_protoc.Common.Constants.{rescue_delay}
use solana_crosschain_protoc.Common.Timelocks.{rescue_start}
use solana_crosschain_protoc.Common.Escrow.{rescue_funds}
use solana_crosschain_protoc.Src.Accounts.{
  src_id, escrow_seeds, order_seeds, load_escrow, load_order, check_resolver,
}
use solana_crosschain_protoc.Src.Create.{OrderArgs, get_order_hash}

pub record RescueFundsForEscrow : Type 0 where
  pub taker : ℕ
  pub mint : ℕ
  pub escrow : ℕ
  pub escrow_ata : ℕ
  pub taker_ata : ℕ
  pub token_program : ℕ

pub record RescueFundsForOrder : Type 0 where
  pub resolver : ℕ
  pub resolver_access : ℕ
  pub mint : ℕ
  pub order : ℕ
  pub order_ata : ℕ
  pub resolver_ata : ℕ
  pub token_program : ℕ

module _ (p : Platform) where
  -- The time from which an escrow's funds can be rescued: none where it is closed.
  unfoldable pub escrow_rescue_start : ℕ → Ledger → Result (Option ℕ)
  escrow_rescue_start escrow l = elim (l.accounts escrow) [
    | none ↦ ok none
    | some _ ↦ do
      e ← load_escrow l escrow
      start ← rescue_start p.u256 (record { word = e.timelocks }) rescue_delay
      ok (some start)
  ]

  -- The same of an order.
  unfoldable pub order_rescue_start : ℕ → Ledger → Result (Option ℕ)
  order_rescue_start order l = elim (l.accounts order) [
    | none ↦ ok none
    | some _ ↦ do
      o ← load_order l order
      start ← rescue_start p.u256 (record { word = o.timelocks }) rescue_delay
      ok (some start)
  ]

  module _ (signed : ℕ → Bool) where
    unfoldable pub rescue_funds_for_escrow :
        RescueFundsForEscrow → ℕ → ℕ → ℕ → ℕ → Ledger → Result Ledger
    rescue_funds_for_escrow a order_hash hashlock amount rescue_amount l = do
      signer signed a.taker
      mint ← load_mint l a.mint
      bump ← find_bump p a.escrow (escrow_seeds order_hash hashlock a.taker amount) src_id
      escrow_ata ← load_associated p l a.escrow_ata a.mint a.escrow a.token_program
      taker_ata ← load_associated p l a.taker_ata a.mint a.taker a.token_program
      start ← escrow_rescue_start a.escrow l
      rescue_funds p a.escrow start escrow_ata a.taker taker_ata.key mint a.token_program
          rescue_amount (escrow_seeds order_hash hashlock a.taker amount ++ be_bytes 1 bump ∷ []) l

    -- The arguments of the order, its maker and its token.
    unfoldable pub rescue_funds_for_order :
        RescueFundsForOrder → OrderArgs → ℕ → ℕ → ℕ → Ledger → Result Ledger
    rescue_funds_for_order a args maker token rescue_amount l = do
      check_resolver p signed src_id a.resolver a.resolver_access l
      mint ← load_mint l a.mint
      let order_hash = get_order_hash p args maker token
      bump ← find_bump p a.order (order_seeds order_hash) src_id
      order_ata ← load_associated p l a.order_ata a.mint a.order a.token_program
      resolver_ata ← load_associated p l a.resolver_ata a.mint a.resolver a.token_program
      start ← order_rescue_start a.order l
      rescue_funds p a.order start order_ata a.resolver resolver_ata.key mint a.token_program
          rescue_amount (order_seeds order_hash ++ be_bytes 1 bump ∷ []) l
