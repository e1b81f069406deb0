-- ===== src/Src/Settle.antt =====
-- programs/cross-chain-escrow-src: the instructions that settle an escrow, `withdraw` and `cancel`
-- of src/utils.rs with the four handlers of src/lib.rs. The framework closes the escrow account
-- into the taker's after each.
pub mod Loads
pub mod Outcome
pub mod Cancelled
use solana_crosschain_protoc.Base.{
  ℕ, Bool, not, Option, none, some, List, [], ◌∷◌, ◌++◌, Result, ok, ◌>>=◌, ◌>>◌, ◌==◌, leb,
  if◌then◌else◌, require, invalid_secret, invalid_time,
}
use solana_crosschain_protoc.Base.Bytes.{be_bytes}
use solana_crosschain_protoc.Ledger.{Ledger, get_current_timestamp}
use solana_crosschain_protoc.Platform.{Platform}
use solana_crosschain_protoc.Platform.Accounts.{MintInfo, TokenInfo}
use solana_crosschain_protoc.Common.Timelocks.{
  Timelocks, get, src_withdrawal, src_public_withdrawal, src_cancellation, src_public_cancellation,
}
use solana_crosschain_protoc.Common.Timelocks.Windows.{in_window}
use solana_crosschain_protoc.Common.Escrow.{Seeds, withdraw_and_close_token_ata, process_payout}
use solana_crosschain_protoc.Src.State.{EscrowSrc}
use solana_crosschain_protoc.Src.Accounts.{escrow_seeds}
use solana_crosschain_protoc.Src.Accounts.Withdraw.{
  Withdraw, PublicWithdraw, load_withdraw, load_public_withdraw,
}
use solana_crosschain_protoc.Src.Accounts.Cancel.{
  CancelEscrow, PublicCancelEscrow, load_cancel_escrow, load_public_cancel_escrow,
}

-- The seeds with which the program signs for an escrow.
unfoldable pub signer_seeds : EscrowSrc → Seeds
signer_seeds e = escrow_seeds e.order_hash e.hashlock e.taker e.amount ++ be_bytes 1 e.bump ∷ []

-- `Timelocks(U256(escrow.timelocks))`
abbrev pub timelocks_of : EscrowSrc → Timelocks
timelocks_of e = record { word = e.timelocks }

module _ (p : Platform) where
  -- The safety deposit goes from the escrow to its recipient, unless that is the rent's.
  unfoldable pub distribute_safety_deposit : ℕ → ℕ → ℕ → ℕ → Ledger → Result Ledger
  distribute_safety_deposit escrow safety_deposit rent_recipient safety_deposit_recipient l =
      if not (rent_recipient == safety_deposit_recipient)
      then (do
        l' ← p.sub_lamports escrow safety_deposit l
        p.add_lamports safety_deposit_recipient safety_deposit l')
      else ok l

  -- `utils::withdraw`: the escrow with its key, its token account, the taker's, and who is paid.
  unfoldable pub utils_withdraw :
      EscrowSrc → ℕ → TokenInfo → ℕ → MintInfo → ℕ → ℕ → ℕ → ℕ → Ledger → Result Ledger
  utils_withdraw escrow escrow_key escrow_ata taker_ata mint token_program rent_recipient
        safety_deposit_recipient secret l =
      do
        require (p.hash (be_bytes 32 secret) == escrow.hashlock) invalid_secret
        l₁ ←
            withdraw_and_close_token_ata p escrow_ata escrow_key taker_ata mint token_program
              rent_recipient (signer_seeds escrow) l
        distribute_safety_deposit escrow_key escrow.safety_deposit rent_recipient
            safety_deposit_recipient l₁

  -- `utils::cancel`
  unfoldable pub utils_cancel :
      EscrowSrc
      → ℕ
      → TokenInfo
      → Option TokenInfo
      → MintInfo
      → ℕ
      → ℕ
      → ℕ
      → ℕ
      → Ledger
      → Result Ledger
  utils_cancel escrow escrow_key escrow_ata creator_ata mint token_program rent_recipient creator
        safety_deposit_recipient l =
      do
        l₁ ←
            process_payout p mint escrow.asset_is_native escrow.amount escrow_key escrow_ata creator
              creator_ata rent_recipient (signer_seeds escrow) token_program l
        distribute_safety_deposit escrow_key escrow.safety_deposit rent_recipient
            safety_deposit_recipient l₁

  module _ (signed : ℕ → Bool) where
    unfoldable pub withdraw : Withdraw → ℕ → Ledger → Result Ledger
    withdraw a secret l = do
      c ← load_withdraw p signed a l
      open_now ←
          in_window p.u256 (timelocks_of c.escrow) (get_current_timestamp l) src_withdrawal
            src_cancellation
      require open_now invalid_time
      l' ←
          utils_withdraw c.escrow a.escrow c.escrow_ata c.taker_ata.key c.mint a.token_program
            a.taker a.taker secret l
      p.close a.escrow a.taker l'

    unfoldable pub public_withdraw : PublicWithdraw → ℕ → Ledger → Result Ledger
    public_withdraw b secret l = do
      let a = b.withdraw
      c ← load_public_withdraw p signed b l
      open_now ←
          in_window p.u256 (timelocks_of c.escrow) (get_current_timestamp l) src_public_withdrawal
            src_cancellation
      require open_now invalid_time
      l' ←
          utils_withdraw c.escrow a.escrow c.escrow_ata c.taker_ata.key c.mint a.token_program
            a.taker b.payer secret l
      p.close a.escrow a.taker l'

    unfoldable pub cancel_escrow : CancelEscrow → Ledger → Result Ledger
    cancel_escrow a l = do
      c ← load_cancel_escrow p signed a l
      start ← get p.u256 (timelocks_of c.escrow) src_cancellation
      require (leb start (get_current_timestamp l)) invalid_time
      l' ←
          utils_cancel c.escrow a.escrow c.escrow_ata c.maker_ata c.mint a.token_program a.taker
            a.maker a.taker l
      p.close a.escrow a.taker l'

    unfoldable pub public_cancel_escrow : PublicCancelEscrow → Ledger → Result Ledger
    public_cancel_escrow b l = do
      let a = b.cancel
      c ← load_public_cancel_escrow p signed b l
      start ← get p.u256 (timelocks_of c.escrow) src_public_cancellation
      require (leb start (get_current_timestamp l)) invalid_time
      l' ←
          utils_cancel c.escrow a.escrow c.escrow_ata c.maker_ata c.mint a.token_program a.taker
            a.maker b.payer l
      p.close a.escrow a.taker l'
