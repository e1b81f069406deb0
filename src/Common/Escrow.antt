-- ===== src/Common/Escrow.antt =====
-- common/src/escrow.rs: transfers of lamports and tokens, the payout of an escrow, and the rescue
-- of what is left in one.
pub mod Effects
use solana_crosschain_protoc.Base.{
  ℕ, Bool, true, false, List, Option, none, some, Result, ok, ◌>>=◌, ◌>>◌, require, ok_or, ◌==◌,
  leb, if◌then◌else◌, escrow_error, missing_recipient_ata, invalid_rescue_start,
}
use solana_crosschain_protoc.Ledger.{Ledger, get_current_timestamp}
use solana_crosschain_protoc.Platform.{Platform}
use solana_crosschain_protoc.Platform.Accounts.{MintInfo, TokenInfo}

pub data UniTransferParams : Type 0 where
  -- from, to, amount, program
  native_transfer : ℕ → ℕ → ℕ → ℕ → UniTransferParams
  -- from, authority, to, mint, amount, program
  token_transfer : ℕ → ℕ → ℕ → MintInfo → ℕ → ℕ → UniTransferParams

abbrev pub Seeds : Type 0
Seeds = List (List ℕ)

module _ (p : Platform) where
  unfoldable pub uni_transfer : UniTransferParams → Option Seeds → Ledger → Result Ledger
  uni_transfer (native_transfer from to amount program) signer_seeds l =
      if amount == 0 then ok l else p.system_transfer from to amount signer_seeds l
  uni_transfer (token_transfer from authority to mint amount program) signer_seeds l =
      if amount == 0
      then ok l
      else p.transfer_checked program from mint.key to authority amount mint.decimals signer_seeds l

  -- `escrow_ata.amount` was read at the start of the call.
  unfoldable pub withdraw_and_close_token_ata :
      TokenInfo → ℕ → ℕ → MintInfo → ℕ → ℕ → Seeds → Ledger → Result Ledger
  unfolding uni_transfer
  withdraw_and_close_token_ata escrow_ata authority to mint token_program rent_recipient seeds l =
      do
        l₁ ←
            uni_transfer
              (token_transfer escrow_ata.key authority to mint escrow_ata.amount token_program)
              (some seeds) l
        p.close_account token_program escrow_ata.key rent_recipient authority (some seeds) l₁

  unfoldable pub process_payout :
      MintInfo
      → Bool
      → ℕ
      → ℕ
      → TokenInfo
      → ℕ
      → Option TokenInfo
      → ℕ
      → Seeds
      → ℕ
      → Ledger
      → Result Ledger
  unfolding withdraw_and_close_token_ata
  process_payout mint true escrow_amount escrow escrow_ata recipient recipient_ata rent_recipient
        seeds token_program l =
      do
        l₁ ← p.close_account token_program escrow_ata.key escrow escrow (some seeds) l
        l₂ ← p.sub_lamports escrow escrow_amount l₁
        p.add_lamports recipient escrow_amount l₂
  process_payout mint false escrow_amount escrow escrow_ata recipient recipient_ata rent_recipient
        seeds token_program l =
      do
        to ← ok_or recipient_ata (escrow_error missing_recipient_ata)
        withdraw_and_close_token_ata escrow_ata escrow to.key mint token_program rent_recipient
            seeds l

  -- `rescue_start` is `none` where the escrow has no data any more.
  unfoldable pub rescue_funds :
      ℕ → Option ℕ → TokenInfo → ℕ → ℕ → MintInfo → ℕ → ℕ → Seeds → Ledger → Result Ledger
  unfolding uni_transfer
  rescue_funds escrow rescue_start escrow_ata recipient recipient_ata mint token_program
        rescue_amount seeds l =
      do
        let now = get_current_timestamp l
        require (elim rescue_start [ none ↦ true | some start ↦ leb start now ])
            invalid_rescue_start
        l₁ ←
            uni_transfer
              (token_transfer escrow_ata.key escrow recipient_ata mint rescue_amount token_program)
              (some seeds) l
        if rescue_amount == escrow_ata.amount
            then p.close_account token_program escrow_ata.key recipient escrow (some seeds) l₁
            else ok l₁
