-- ===== src/Src/Accounts/Cancel.antt =====
-- The accounts of `cancel_escrow` and `public_cancel_escrow`.
use solana_crosschain_protoc.Base.{
  ℕ, Bool, not, Result, ok, runtime, ◌>>=◌, ◌>>◌, ◌==◌, require, check, invalid_account,
  invalid_mint, Option,
}
use solana_crosschain_protoc.Ledger.{Ledger}
use solana_crosschain_protoc.Src.State.{EscrowSrc}
use solana_crosschain_protoc.Src.Accounts.{src_id, escrow_seeds, load_escrow, check_resolver}
use solana_crosschain_protoc.Platform.{Platform}
use solana_crosschain_protoc.Platform.Accounts.{
  MintInfo, TokenInfo, load_mint, signer, load_associated, load_optional, check_seeds,
}

pub record CancelEscrow : Type 0 where
  pub taker : ℕ
  pub maker : ℕ
  pub mint : ℕ
  pub escrow : ℕ
  pub escrow_ata : ℕ
  pub maker_ata : Option ℕ
  pub token_program : ℕ

-- The accounts of `CancelEscrow`, where the taker need not sign, and two more.
pub record PublicCancelEscrow : Type 0 where
  pub cancel : CancelEscrow
  pub payer : ℕ
  pub resolver_access : ℕ

-- The accounts as read at the start.
pub record Cancellation : Type 0 where
  pub mint : MintInfo
  pub escrow : EscrowSrc
  pub escrow_ata : TokenInfo
  pub maker_ata : Option TokenInfo

module _ (p : Platform) (signed : ℕ → Bool) where
  -- What both instructions ask of the accounts that they share. The maker's key is the escrow's,
  -- which is how one of the two names the authority of `maker_ata`.
  unfoldable pub load_cancellation : CancelEscrow → Ledger → Result Cancellation
  load_cancellation a l = do
    mint ← load_mint l a.mint
    escrow ← load_escrow l a.escrow
    require (a.taker == escrow.taker) invalid_account
    require (a.maker == escrow.maker) invalid_account
    require (a.mint == escrow.token) invalid_mint
    check (not (a.escrow == a.taker)) (runtime 2011)
    check_seeds p a.escrow (escrow_seeds escrow.order_hash escrow.hashlock a.taker escrow.amount)
        escrow.bump src_id
    escrow_ata ← load_associated p l a.escrow_ata a.mint a.escrow a.token_program
    maker_ata ← load_optional p l a.maker_ata a.mint a.maker a.token_program
    ok (record { mint = mint; escrow = escrow; escrow_ata = escrow_ata; maker_ata = maker_ata })

  unfoldable pub load_cancel_escrow : CancelEscrow → Ledger → Result Cancellation
  unfolding load_cancellation
  load_cancel_escrow a l = do signer signed a.taker; load_cancellation a l

  unfoldable pub load_public_cancel_escrow : PublicCancelEscrow → Ledger → Result Cancellation
  unfolding load_cancellation
  load_public_cancel_escrow a l = do
    check_resolver p signed src_id a.payer a.resolver_access l
    load_cancellation a.cancel l
