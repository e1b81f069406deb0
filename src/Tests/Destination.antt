-- ===== src/Tests/Destination.antt =====
-- The life of an escrow on the destination side, at concrete inputs.
use solana_crosschain_protoc.Base.{
  ◌/◌, ℕ, ◌+◌, ◌*◌, ◌^◌, ◌<◌, ◌≤◌, ◌≡◌, inr, refl, Bool, true, false, ◌||◌, ◌==◌, Option, none,
  some, Result, ok, err, checked_add32,
}
use solana_crosschain_protoc.Base.Bytes.{be_bytes, from_be}
use solana_crosschain_protoc.Uint256.Reference.{limbs, limbs-IsU256, narrow}
use solana_crosschain_protoc.Uint256.{value}
use solana_crosschain_protoc.Ledger.{
  TokenAccount, escrow_dst_data, resolver_access_data, Ledger, update, get_current_timestamp,
}
use solana_crosschain_protoc.Platform.Accounts.{
  load_associated, load_optional, init_associated, check_seeds, find_bump,
}
use solana_crosschain_protoc.Common.Constants.{rescue_delay}
use solana_crosschain_protoc.Common.Timelocks.{
  index, get, set_deployed_at, rescue_start, get_timelocks, dst_withdrawal, dst_public_withdrawal,
  dst_cancellation,
}
use solana_crosschain_protoc.Common.Timelocks.Windows.{in_window, IsOpen}
use solana_crosschain_protoc.Common.Escrow.{
  process_payout, withdraw_and_close_token_ata, uni_transfer, rescue_funds,
}
use solana_crosschain_protoc.Src.Accounts.{load_access, escrow_seeds, check_resolver}
use solana_crosschain_protoc.Src.Settle.{distribute_safety_deposit}
use solana_crosschain_protoc.Src.Settle.Loads.{IsResolver}
use solana_crosschain_protoc.Dst.State.{EscrowDst}
use solana_crosschain_protoc.Dst.Accounts.{
  dst_id, Create, Withdraw, PublicWithdraw, Cancel, RescueFunds, load_create, load_withdrawal,
  load_withdraw, load_public_withdraw, load_cancel, load_rescue_funds, load_escrow_dst,
  init_optional,
}
use solana_crosschain_protoc.Dst.{
  CreateArgs, timelocks_of, signer_seeds, new_escrow, deposit, utils_withdraw, create, withdraw,
  public_withdraw, cancel, escrow_rescue_start, rescue_escrow_funds,
}
use solana_crosschain_protoc.Dst.Created.{Created, create-Created}
use solana_crosschain_protoc.Ledger.{fee_of}
use solana_crosschain_protoc.Dst.Settled.{
  Settled, withdraw-Settled, public_withdraw-Settled, cancel-Settled, withdraw_before_cancel,
}
use solana_crosschain_protoc.Dst.Rescued.{create-rescue_delay}
use solana_crosschain_protoc.Tests.Model.{model, model-PlatformLaws}

abbrev signed : ℕ → Bool
signed k = k == 10 || k == 30

abbrev escrow_key : ℕ
escrow_key = 40 * 256 + 255

abbrev access_key : ℕ
access_key = 30 * 256 + 1

abbrev ata : ℕ → ℕ
ata wallet = 2 ^ 16 + wallet * 1000 + 2

abbrev tokens : ℕ → ℕ → Option TokenAccount
tokens owner amount = some (record { mint = 2; owner = owner; amount = amount })

abbrev before : Ledger
before = record {
  lamports = λ k. 100;
  tokens = update (update (λ k. none) (ata 10) (tokens 10 50)) (ata 20) (tokens 20 4);
  mints = λ k. some (record { decimals = 6; transfer_fee = λ n. n / 20 });
  accounts = update (λ k. none) access_key (some (resolver_access_data (record { bump = 1 })));
  unix_timestamp = 1000;
}

abbrev ledger_of : Result Ledger → Ledger
ledger_of (ok l) = l
ledger_of (err e) = before

abbrev creation : Create
creation = record {
  creator = 10;
  mint = 2;
  creator_ata = some (ata 10);
  escrow = escrow_key;
  escrow_ata = ata escrow_key;
  token_program = 3;
  system_program = 4;
}

abbrev args : CreateArgs
args = record {
  order_hash = 9;
  hashlock = 77;
  amount = 40;
  safety_deposit = 5;
  recipient = 20;
  timelocks = limbs (30 * 2 ^ 192 + 20 * 2 ^ 160 + 10 * 2 ^ 128);
  src_cancellation_timestamp = 2000;
  asset_is_native = false;
}

abbrev withdrawal : Withdraw
withdrawal = record {
  creator = 10;
  recipient = 20;
  mint = 2;
  escrow = escrow_key;
  escrow_ata = ata escrow_key;
  recipient_ata = some (ata 20);
  token_program = 3;
}

abbrev public_withdrawal : PublicWithdraw
public_withdrawal = record { withdraw = withdrawal; payer = 30; resolver_access = access_key }

abbrev cancellation : Cancel
cancellation = record {
  creator = 10;
  mint = 2;
  escrow = escrow_key;
  escrow_ata = ata escrow_key;
  creator_ata = some (ata 10);
  token_program = 3;
}

abbrev rescue : RescueFunds
rescue = record {
  creator = 10;
  recipient = 20;
  mint = 2;
  escrow = escrow_key;
  escrow_ata = ata escrow_key;
  creator_ata = ata 10;
  token_program = 3;
}

abbrev created : Ledger
created = ledger_of (create model signed creation args before)

-- The ledger with the escrow, some time after.
abbrev at : ℕ → Ledger
at offset = record created { unix_timestamp = 1000 + offset }

abbrev withdrawn : Ledger
withdrawn = ledger_of (withdraw model signed withdrawal 77 (at 15))

abbrev publicly_withdrawn : Ledger
publicly_withdrawn = ledger_of (public_withdraw model signed public_withdrawal 77 (at 25))

abbrev cancelled : Ledger
cancelled = ledger_of (cancel model signed cancellation (at 35))

abbrev rescued : Ledger
rescued = ledger_of (rescue_escrow_funds model signed rescue 9 77 40 38 (at 700000))

runs :
    (create model signed creation args before ≡ ok created)
    × (withdraw model signed withdrawal 77 (at 15) ≡ ok withdrawn)
    × (public_withdraw model signed public_withdrawal 77 (at 25) ≡ ok publicly_withdrawn)
    × (cancel model signed cancellation (at 35) ≡ ok cancelled)
    × (rescue_escrow_funds model signed rescue 9 77 40 38 (at 700000) ≡ ok rescued)
unfolding create withdraw public_withdraw cancel rescue_escrow_funds escrow_rescue_start deposit
    new_escrow utils_withdraw signer_seeds load_create load_withdrawal load_withdraw
    load_public_withdraw load_cancel load_rescue_funds load_escrow_dst init_optional init_associated
    load_associated load_optional check_resolver check_seeds find_bump load_access in_window get
    set_deployed_at rescue_start get_timelocks index limbs value narrow escrow_seeds
    withdraw_and_close_token_ata uni_transfer process_payout rescue_funds distribute_safety_deposit
    get_current_timestamp from_be be_bytes checked_add32 fee_of
runs = (refl, refl, refl, refl, refl)

create-Created_example : Created model model-PlatformLaws signed creation args before created
create-Created_example =
    create-Created model model-PlatformLaws signed creation args before created runs.0

withdraw-Settled_example :
    (e : EscrowDst) × ((at 15).accounts escrow_key ≡ some (escrow_dst_data e))
    × (signed 10 ≡ true)
    × (10 ≡ e.creator)
    × (20 ≡ e.recipient)
    × IsOpen model.u256
        (timelocks_of e)
        (get_current_timestamp (at 15))
        dst_withdrawal
        dst_cancellation
    × (model.hash (be_bytes 32 77) ≡ e.hashlock)
    × Settled escrow_key (ata escrow_key) (at 15) withdrawn
withdraw-Settled_example =
    withdraw-Settled model model-PlatformLaws signed withdrawal 77 (at 15) withdrawn runs.1

public_withdraw-Settled_example :
    (e : EscrowDst) × ((at 25).accounts escrow_key ≡ some (escrow_dst_data e))
    × IsResolver model signed dst_id 30 access_key (at 25)
    × (10 ≡ e.creator)
    × (20 ≡ e.recipient)
    × IsOpen model.u256
        (timelocks_of e)
        (get_current_timestamp (at 25))
        dst_public_withdrawal
        dst_cancellation
    × (model.hash (be_bytes 32 77) ≡ e.hashlock)
    × Settled escrow_key (ata escrow_key) (at 25) publicly_withdrawn
public_withdraw-Settled_example =
    public_withdraw-Settled model model-PlatformLaws signed public_withdrawal 77 (at 25)
      publicly_withdrawn runs.2

cancel-Settled_example :
    (e : EscrowDst) × (start : ℕ) × ((at 35).accounts escrow_key ≡ some (escrow_dst_data e))
    × (signed 10 ≡ true)
    × (10 ≡ e.creator)
    × (get model.u256 (timelocks_of e) dst_cancellation ≡ ok start)
    × (start ≤ get_current_timestamp (at 35))
    × Settled escrow_key (ata escrow_key) (at 35) cancelled
cancel-Settled_example =
    cancel-Settled model model-PlatformLaws signed cancellation (at 35) cancelled runs.3

withdraw_before_cancel_example : get_current_timestamp (at 25) < get_current_timestamp (at 35)
withdraw_before_cancel_example =
    withdraw_before_cancel model model-PlatformLaws signed signed public_withdrawal cancellation 77
      (at 25) publicly_withdrawn (at 35) cancelled refl (inr runs.2) runs.3

create-rescue_delay_example :
    get_current_timestamp before + rescue_delay ≤ get_current_timestamp (at 700000)
create-rescue_delay_example =
    create-rescue_delay model model-PlatformLaws signed signed creation args rescue 9 77 40 38
      before created (at 700000) rescued (limbs-IsU256 (30 * 2 ^ 192 + 20 * 2 ^ 160 + 10 * 2 ^ 128))
      runs.0 refl runs.4
