-- ===== src/Dst/Accounts.antt =====
-- programs/cross-chain-escrow-dst/src/lib.rs: the accounts of each instruction, and the checks that
-- their attributes ask for. `signed` says which keys signed the transaction.
use solana_crosschain_protoc.Base.{
  ℕ, ◌+◌, Bool, Option, none, some, Result, ok, err, runtime, ◌>>=◌, ◌>>◌, ◌==◌, not, check,
  require, invalid_account, invalid_mint,
}
use solana_crosschain_protoc.Ledger.{Ledger, escrow_dst_data}
use solana_crosschain_protoc.Common.Constants.{discriminator_bytes}
use solana_crosschain_protoc.Platform.{Platform}
use solana_crosschain_protoc.Platform.Accounts.{
  MintInfo, TokenInfo, load_mint, signer, load_associated, load_optional, init_associated,
  check_seeds, find_bump,
}
use solana_crosschain_protoc.Src.Accounts.{escrow_seeds, check_resolver}
use solana_crosschain_protoc.Dst.State.{EscrowDst, escrow_dst_space}

-- `declare_id!`, decoded from base 58.
abbrev pub dst_id : ℕ
dst_id = 0xec9d7830c3cd09701524b111d5d197a427446a57006e0027df050b56426cefcf

-- `Account<'info, EscrowDst>`
unfoldable pub load_escrow_dst : Ledger → ℕ → Result EscrowDst
load_escrow_dst l k = elim (l.accounts k) [
  | none ↦ err (runtime 3012)
  | some (escrow_dst_data e) ↦ ok e
  | some _ ↦ err (runtime 3002)
]

pub record Create : Type 0 where
  pub creator : ℕ
  pub mint : ℕ
  pub creator_ata : Option ℕ
  pub escrow : ℕ
  pub escrow_ata : ℕ
  pub token_program : ℕ
  pub system_program : ℕ

-- The accounts of `create` as read at the start, and the ledger with the new ones in it.
pub record Creation : Type 0 where
  pub mint : MintInfo
  pub creator_ata : Option TokenInfo
  pub escrow_ata : TokenInfo
  pub bump : ℕ
  pub ledger : Ledger

pub record Withdraw : Type 0 where
  pub creator : ℕ
  pub recipient : ℕ
  pub mint : ℕ
  pub escrow : ℕ
  pub escrow_ata : ℕ
  pub recipient_ata : Option ℕ
  pub token_program : ℕ

-- The accounts of `Withdraw`, where the creator need not sign, and two more.
pub record PublicWithdraw : Type 0 where
  pub withdraw : Withdraw
  pub payer : ℕ
  pub resolver_access : ℕ

pub record Withdrawal : Type 0 where
  pub mint : MintInfo
  pub escrow : EscrowDst
  pub escrow_ata : TokenInfo
  pub recipient_ata : Option TokenInfo

pub record Cancel : Type 0 where
  pub creator : ℕ
  pub mint : ℕ
  pub escrow : ℕ
  pub escrow_ata : ℕ
  pub creator_ata : Option ℕ
  pub token_program : ℕ

pub record Cancellation : Type 0 where
  pub mint : MintInfo
  pub escrow : EscrowDst
  pub escrow_ata : TokenInfo
  pub creator_ata : Option TokenInfo

pub record RescueFunds : Type 0 where
  pub creator : ℕ
  pub recipient : ℕ
  pub mint : ℕ
  pub escrow : ℕ
  pub escrow_ata : ℕ
  pub creator_ata : ℕ
  pub token_program : ℕ

pub record Rescue : Type 0 where
  pub mint : MintInfo
  pub escrow_ata : TokenInfo
  pub creator_ata : TokenInfo
  pub bump : ℕ

module _ (p : Platform) where
  -- `init_if_needed` of an optional associated token account.
  unfoldable pub init_optional :
      Ledger → ℕ → Option ℕ → ℕ → ℕ → ℕ → Result (Option TokenInfo × Ledger)
  init_optional l payer none mint authority token_program = ok (none, l)
  init_optional l payer (some k) mint authority token_program = do
    (t, l') ← init_associated p l payer k mint authority token_program
    ok (some t, l')

  module _ (signed : ℕ → Bool) where
    unfoldable pub load_create : Create → ℕ → ℕ → ℕ → Ledger → Result Creation
    load_create a order_hash hashlock amount l = do
      signer signed a.creator
      mint ← load_mint l a.mint
      creator_ata ← load_optional p l a.creator_ata a.mint a.creator a.token_program
      bump ← find_bump p a.escrow (escrow_seeds order_hash hashlock a.creator amount) dst_id
      l₁ ← p.init_account a.creator a.escrow (discriminator_bytes + escrow_dst_space) dst_id l
      (escrow_ata, l₂) ← init_associated p l₁ a.creator a.escrow_ata a.mint a.escrow a.token_program
      ok (record {
        mint = mint;
        creator_ata = creator_ata;
        escrow_ata = escrow_ata;
        bump = bump;
        ledger = l₂;
      })

    -- What both withdrawals ask of the accounts that they share; `payer` pays for a new account.
    unfoldable pub load_withdrawal : Withdraw → ℕ → Ledger → Result (Withdrawal × Ledger)
    load_withdrawal a payer l = do
      mint ← load_mint l a.mint
      escrow ← load_escrow_dst l a.escrow
      escrow_ata ← load_associated p l a.escrow_ata a.mint a.escrow a.token_program
      (recipient_ata, l₁) ← init_optional l payer a.recipient_ata a.mint a.recipient a.token_program
      require (a.creator == escrow.creator) invalid_account
      require (a.recipient == escrow.recipient) invalid_account
      require (a.mint == escrow.token) invalid_mint
      check (not (a.escrow == a.creator)) (runtime 2011)
      check_seeds p a.escrow
          (escrow_seeds escrow.order_hash escrow.hashlock escrow.creator escrow.amount) escrow.bump
          dst_id
      ok (
        record {
          mint = mint;
          escrow = escrow;
          escrow_ata = escrow_ata;
          recipient_ata = recipient_ata;
        },
        l₁,
      )

    unfoldable pub load_withdraw : Withdraw → Ledger → Result (Withdrawal × Ledger)
    unfolding load_withdrawal
    load_withdraw a l = do signer signed a.creator; load_withdrawal a a.creator l

    unfoldable pub load_public_withdraw : PublicWithdraw → Ledger → Result (Withdrawal × Ledger)
    unfolding load_withdrawal
    load_public_withdraw b l = do
      check_resolver p signed dst_id b.payer b.resolver_access l
      load_withdrawal b.withdraw b.payer l

    unfoldable pub load_cancel : Cancel → Ledger → Result Cancellation
    load_cancel a l = do
      signer signed a.creator
      mint ← load_mint l a.mint
      escrow ← load_escrow_dst l a.escrow
      require (a.creator == escrow.creator) invalid_account
      require (a.mint == escrow.token) invalid_mint
      check (not (a.escrow == a.creator)) (runtime 2011)
      check_seeds p a.escrow
          (escrow_seeds escrow.order_hash escrow.hashlock escrow.creator escrow.amount) escrow.bump
          dst_id
      escrow_ata ← load_associated p l a.escrow_ata a.mint a.escrow a.token_program
      creator_ata ← load_optional p l a.creator_ata a.mint a.creator a.token_program
      ok (record {
        mint = mint;
        escrow = escrow;
        escrow_ata = escrow_ata;
        creator_ata = creator_ata;
      })

    unfoldable pub load_rescue_funds : RescueFunds → ℕ → ℕ → ℕ → Ledger → Result Rescue
    load_rescue_funds a order_hash hashlock escrow_amount l = do
      signer signed a.creator
      mint ← load_mint l a.mint
      bump ← find_bump p a.escrow (escrow_seeds order_hash hashlock a.creator escrow_amount) dst_id
      escrow_ata ← load_associated p l a.escrow_ata a.mint a.escrow a.token_program
      creator_ata ← load_associated p l a.creator_ata a.mint a.creator a.token_program
      ok (record { mint = mint; escrow_ata = escrow_ata; creator_ata = creator_ata; bump = bump })
