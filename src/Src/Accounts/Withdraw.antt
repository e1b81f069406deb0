-- ===== src/Src/Accounts/Withdraw.antt =====
-- The accounts of `withdraw` and `public_withdraw`.
use solana_crosschain_protoc.Base.{
  ℕ, Bool, not, Result, ok, runtime, ◌>>=◌, ◌>>◌, ◌==◌, require, check, invalid_account,
  invalid_mint,
}
use solana_crosschain_protoc.Ledger.{Ledger}
use solana_crosschain_protoc.Src.State.{EscrowSrc}
use solana_crosschain_protoc.Src.Accounts.{src_id, escrow_seeds, load_escrow, check_resolver}
use solana_crosschain_protoc.Platform.{Platform}
use solana_crosschain_protoc.Platform.Accounts.{
  MintInfo, TokenInfo, load_mint, signer, load_associated, check_seeds,
}

pub record Withdraw : Type 0 where
  pub taker : ℕ
  pub mint : ℕ
  pub escrow : ℕ
  pub escrow_ata : ℕ
  pub taker_ata : ℕ
  pub token_program : ℕ

-- The accounts of `Withdraw`, where the taker need not sign, and two more.
pub record PublicWithdraw : Type 0 where
  pub withdraw : Withdraw
  pub payer : ℕ
  pub resolver_access : ℕ

-- The accounts as read at the start.
pub record Withdrawal : Type 0 where
  pub mint : MintInfo
  pub escrow : EscrowSrc
  pub escrow_ata : TokenInfo
  pub taker_ata : TokenInfo

module _ (p : Platform) (signed : ℕ → Bool) where
  -- What both instructions ask of the accounts that they share.
  unfoldable pub load_withdrawal : Withdraw → Ledger → Result Withdrawal
  load_withdrawal a l = do
    mint ← load_mint l a.mint
    escrow ← load_escrow l a.escrow
    require (a.taker == escrow.taker) invalid_account
    require (a.mint == escrow.token) invalid_mint
    check (not (a.escrow == a.taker)) (runtime 2011)
    check_seeds p a.escrow
        (escrow_seeds escrow.order_hash escrow.hashlock escrow.taker escrow.amount) escrow.bump
        src_id
    escrow_ata ← load_associated p l a.escrow_ata a.mint a.escrow a.token_program
    taker_ata ← load_associated p l a.taker_ata a.mint a.taker a.token_program
    ok (record { mint = mint; escrow = escrow; escrow_ata = escrow_ata; taker_ata = taker_ata })

  unfoldable pub load_withdraw : Withdraw → Ledger → Result Withdrawal
  unfolding load_withdrawal
  load_withdraw a l = do signer signed a.taker; load_withdrawal a l

  unfoldable pub load_public_withdraw : PublicWithdraw → Ledger → Result Withdrawal
  unfolding load_withdrawal
  load_public_withdraw a l = do
    check_resolver p signed src_id a.payer a.resolver_access l
    load_withdrawal a.withdraw l
