-- ===== src/Tests/Settlement.antt =====
-- A withdrawal and a cancellation of an escrow, at concrete inputs.
use solana_crosschain_protoc.Base.{
  ◌/◌, ℕ, ◌+◌, ◌*◌, ◌^◌, ◌<◌, ◌≤◌, ◌≡◌, refl, Bool, true, false, ◌||◌, ◌==◌, Option, none, some,
  Result, ok, err, arith, checked_add32,
}
use solana_crosschain_protoc.Base.Bytes.{be_bytes, from_be}
use solana_crosschain_protoc.Uint256.Reference.{limbs, narrow}
use solana_crosschain_protoc.Uint256.{value}
use solana_crosschain_protoc.Ledger.{
  TokenAccount, escrow_src_data, resolver_access_data, Ledger, update, get_current_timestamp,
}
use solana_crosschain_protoc.Platform.Accounts.{load_associated, load_optional, check_seeds}
use solana_crosschain_protoc.Common.Timelocks.{
  index, get, src_cancellation, src_public_cancellation,
}
use solana_crosschain_protoc.Common.Timelocks.Windows.{in_window}
use solana_crosschain_protoc.Common.Escrow.{
  process_payout, withdraw_and_close_token_ata, uni_transfer,
}
use solana_crosschain_protoc.Src.State.{EscrowSrc}
use solana_crosschain_protoc.Src.Accounts.{
  src_id, load_access, load_escrow, check_resolver, escrow_seeds,
}
use solana_crosschain_protoc.Src.Accounts.Withdraw.{
  Withdraw, PublicWithdraw, load_withdraw, load_withdrawal, load_public_withdraw,
}
use solana_crosschain_protoc.Src.Accounts.Cancel.{
  CancelEscrow, PublicCancelEscrow, load_cancel_escrow, load_public_cancel_escrow,
  load_cancellation,
}
use solana_crosschain_protoc.Src.Settle.{
  signer_seeds, timelocks_of, utils_withdraw, utils_cancel, distribute_safety_deposit, withdraw,
  public_withdraw, cancel_escrow, public_cancel_escrow,
}
use solana_crosschain_protoc.Src.Settle.Loads.{IsResolver}
use solana_crosschain_protoc.Src.Settle.Outcome.{public_withdraw_deposit}
use solana_crosschain_protoc.Src.Settle.Cancelled.{
  Cancelled, cancel_escrow-Cancelled, cancel_escrow_native, withdraw_before_cancel_escrow,
  public_cancel_escrow-Cancelled,
}
use solana_crosschain_protoc.Tests.Model.{model, model-PlatformLaws}

-- An escrow of 40 units of a mint, deployed at 1000.
abbrev escrow : ℕ → Bool → EscrowSrc
escrow mint native = record {
  order_hash = 9;
  hashlock = 77;
  maker = 20;
  taker = 10;
  token = mint;
  amount = 40;
  safety_deposit = 5;
  timelocks = limbs (1000 * 2 ^ 224 + 40 * 2 ^ 96 + 30 * 2 ^ 64 + 20 * 2 ^ 32 + 10);
  asset_is_native = native;
  dst_amount = limbs 7;
  bump = 255;
}

abbrev signed : ℕ → Bool
signed k = k == 10 || k == 30

abbrev escrow_key : ℕ
escrow_key = 40 * 256 + 255

abbrev ata : ℕ → ℕ → ℕ
ata wallet mint = 2 ^ 16 + wallet * 1000 + mint

abbrev tokens : ℕ → ℕ → ℕ → Option TokenAccount
tokens mint owner amount = some (record { mint = mint; owner = owner; amount = amount })

abbrev access_key : ℕ
access_key = 30 * 256 + 1

abbrev ledger : ℕ → Bool → ℕ → Ledger
ledger mint native now = record {
  lamports = λ k. 100;
  tokens =
      update
        (update (update (λ k. none) (ata escrow_key mint) (tokens mint escrow_key 40)) (ata 10 mint)
          (tokens mint 10 3))
        (ata 20 mint) (tokens mint 20 4);
  mints = λ k. some (record { decimals = 6; transfer_fee = λ n. n / 20 });
  accounts =
      update (update (λ k. none) escrow_key (some (escrow_src_data (escrow mint native))))
        access_key (some (resolver_access_data (record { bump = 1 })));
  unix_timestamp = now;
}

abbrev ledger_of : Result Ledger → Ledger
ledger_of (ok l) = l
ledger_of (err e) = ledger 0 false 0

abbrev withdrawal : Withdraw
withdrawal = record {
  taker = 10;
  mint = 2;
  escrow = escrow_key;
  escrow_ata = ata escrow_key 2;
  taker_ata = ata 10 2;
  token_program = 3;
}

abbrev public_withdrawal : PublicWithdraw
public_withdrawal = record { withdraw = withdrawal; payer = 30; resolver_access = access_key }

abbrev cancellation : ℕ → CancelEscrow
cancellation mint = record {
  taker = 10;
  maker = 20;
  mint = mint;
  escrow = escrow_key;
  escrow_ata = ata escrow_key mint;
  maker_ata = some (ata 20 mint);
  token_program = 3;
}

abbrev public_cancellation : PublicCancelEscrow
public_cancellation = record { cancel = cancellation 2; payer = 30; resolver_access = access_key }

-- The ledger at a time after the deployment.
abbrev at : ℕ → Ledger
at offset = ledger 2 false (1000 + offset)

abbrev native_at : ℕ → Ledger
native_at offset = ledger 1 true (1000 + offset)

abbrev withdrawn : Ledger
withdrawn = ledger_of (withdraw model signed withdrawal 77 (at 15))

abbrev publicly_withdrawn : Ledger
publicly_withdrawn = ledger_of (public_withdraw model signed public_withdrawal 77 (at 25))

abbrev cancelled : Ledger
cancelled = ledger_of (cancel_escrow model signed (cancellation 2) (at 35))

abbrev native_cancelled : Ledger
native_cancelled = ledger_of (cancel_escrow model signed (cancellation 1) (native_at 35))

abbrev publicly_cancelled : Ledger
publicly_cancelled = ledger_of (public_cancel_escrow model signed public_cancellation (at 45))

runs :
    (withdraw model signed withdrawal 77 (at 15) ≡ ok withdrawn)
    × (public_withdraw model signed public_withdrawal 77 (at 25) ≡ ok publicly_withdrawn)
    × (cancel_escrow model signed (cancellation 2) (at 35) ≡ ok cancelled)
    × (cancel_escrow model signed (cancellation 1) (native_at 35) ≡ ok native_cancelled)
    × (public_cancel_escrow model signed public_cancellation (at 45) ≡ ok publicly_cancelled)
unfolding withdraw public_withdraw cancel_escrow public_cancel_escrow utils_withdraw utils_cancel
    distribute_safety_deposit load_withdraw load_public_withdraw load_withdrawal load_cancel_escrow
    load_public_cancel_escrow load_cancellation load_escrow load_associated load_optional
    check_resolver check_seeds load_access in_window get index limbs value narrow escrow_seeds
    signer_seeds withdraw_and_close_token_ata uni_transfer process_payout get_current_timestamp
    from_be be_bytes checked_add32
runs = (refl, refl, refl, refl, refl)

public_withdraw_deposit_example : publicly_withdrawn.lamports 30 ≡ 100 + 5
public_withdraw_deposit_example =
    public_withdraw_deposit model model-PlatformLaws signed public_withdrawal 77 (at 25)
      publicly_withdrawn (escrow 2 false) refl (omega arith) (omega arith) (omega arith)
      (omega arith) runs.1

cancel_escrow-Cancelled_example :
    (e : EscrowSrc) × (start : ℕ) × ((at 35).accounts escrow_key ≡ some (escrow_src_data e))
    × (signed 10 ≡ true)
    × (10 ≡ e.taker)
    × (20 ≡ e.maker)
    × (get model.u256 (timelocks_of e) src_cancellation ≡ ok start)
    × (start ≤ get_current_timestamp (at 35))
    × Cancelled (cancellation 2) (at 35) cancelled
cancel_escrow-Cancelled_example =
    cancel_escrow-Cancelled model model-PlatformLaws signed (cancellation 2) (at 35) cancelled
      runs.2

cancel_escrow_native_example : native_cancelled.lamports 20 ≡ 100 + 40
cancel_escrow_native_example =
    cancel_escrow_native model model-PlatformLaws signed (cancellation 1) (native_at 35)
      native_cancelled (escrow 1 true) refl refl (omega arith) (omega arith) (omega arith)
      (omega arith) runs.3

withdraw_before_cancel_escrow_example :
    get_current_timestamp (at 15) < get_current_timestamp (at 35)
withdraw_before_cancel_escrow_example =
    withdraw_before_cancel_escrow model model-PlatformLaws signed signed withdrawal (cancellation 2)
      77 (at 15) withdrawn (at 35) cancelled refl runs.0 runs.2

public_cancel_escrow-Cancelled_example :
    (e : EscrowSrc) × (start : ℕ) × ((at 45).accounts escrow_key ≡ some (escrow_src_data e))
    × IsResolver model signed src_id 30 access_key (at 45)
    × (10 ≡ e.taker)
    × (20 ≡ e.maker)
    × (get model.u256 (timelocks_of e) src_public_cancellation ≡ ok start)
    × (start ≤ get_current_timestamp (at 45))
    × Cancelled (cancellation 2) (at 45) publicly_cancelled
public_cancel_escrow-Cancelled_example =
    public_cancel_escrow-Cancelled model model-PlatformLaws signed public_cancellation (at 45)
      publicly_cancelled runs.4
