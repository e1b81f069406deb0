-- ===== src/Tests/Filling.antt =====
-- A fill of a part of an order, at concrete inputs.
use solana_crosschain_protoc.Base.{
  ◌/◌, ℕ, ◌+◌, ◌*◌, ◌^◌, ◌≡◌, refl, Bool, true, false, ◌==◌, arith, List, ◌∷◌, none, some, [],
  Result, ok, err, checked_add32, add64, sub64, mul64, div64,
}
use solana_crosschain_protoc.Base.Bytes.{be_bytes, from_be}
use solana_crosschain_protoc.Uint256.{value}
use solana_crosschain_protoc.Uint256.Reference.{limbs, narrow, fit, div_by}
use solana_crosschain_protoc.Ledger.{
  fee_of, order_data, resolver_access_data, Ledger, update, get_current_timestamp,
}
use solana_crosschain_protoc.Platform.Accounts.{
  load_associated, init_associated, check_seeds, find_bump,
}
use solana_crosschain_protoc.Common.Timelocks.{set_deployed_at, get_timelocks}
use solana_crosschain_protoc.Common.Escrow.{uni_transfer}
use solana_crosschain_protoc.Src.Auction.{AuctionData, calculate_rate_bump}
use solana_crosschain_protoc.Src.Merkle.{MerkleProof, process_proof}
use solana_crosschain_protoc.Src.Fill.{is_valid_partial_fill, get_escrow_hashlock}
use solana_crosschain_protoc.Src.DstAmount.{escrow_dst_amount}
use solana_crosschain_protoc.Src.State.{Order}
use solana_crosschain_protoc.Src.Accounts.{
  load_access, load_order, escrow_seeds, order_seeds, check_resolver,
}
use solana_crosschain_protoc.Src.Accounts.Fill.{CreateEscrow, load_create_escrow}
use solana_crosschain_protoc.Src.CreateEscrow.{
  order_signer, amount_allowed, completes, fill_hashlock, new_escrow, finish_order, create_escrow,
}
use solana_crosschain_protoc.Src.Fill.Sequence.{Fill, taken, ClimbsFrom}
use solana_crosschain_protoc.Src.CreateEscrow.Trace.{Runs, stop, run, Remains, Runs-use_new_secrets}
use solana_crosschain_protoc.Tests.Model.{model, model-PlatformLaws}

abbrev signed : ℕ → Bool
signed k = k == 10

abbrev escrow_key : ℕ
escrow_key = 40 * 256 + 255

abbrev order_key : ℕ
order_key = 9 * 256 + 255

abbrev access_key : ℕ
access_key = 10 * 256 + 1

abbrev ata : ℕ → ℕ
ata wallet = 2 ^ 16 + wallet * 1000 + 2

abbrev auction : AuctionData
auction = record {
  start_time = 100;
  duration = 100;
  initial_rate_bump = record { byte0 = 1; byte1 = 2; byte2 = 3 };
  points_and_time_deltas = [];
}

-- An order of 100 units in 4 parts.
abbrev order : Order
order = record {
  order_hash = 9;
  hashlock = 4 * 2 ^ 240 + 77;
  creator = 20;
  token = 2;
  amount = 100;
  remaining_amount = 100;
  safety_deposit = 5;
  timelocks = limbs 10;
  expiration_time = 500;
  asset_is_native = false;
  dst_amount = limbs 1000;
  dutch_auction_data_hash = 100 * 2 ^ 32 + 100;
  max_cancellation_premium = 0;
  cancellation_auction_duration = 0;
  allow_multiple_fills = true;
  bump = 255;
}

abbrev proof : MerkleProof
proof = record { proof = []; index = 1; hashed_secret = 77 }

abbrev accounts : CreateEscrow
accounts = record {
  taker = 10;
  resolver_access = access_key;
  maker = 20;
  mint = 2;
  order = order_key;
  order_ata = ata order_key;
  escrow = escrow_key;
  escrow_ata = ata escrow_key;
  token_program = 3;
}

abbrev before : Ledger
before = record {
  lamports = λ k. 100;
  tokens =
      update (λ k. none) (ata order_key)
        (some (record { mint = 2; owner = order_key; amount = 100 }));
  mints = λ k. some (record { decimals = 6; transfer_fee = λ n. n / 20 });
  accounts =
      update (update (λ k. none) order_key (some (order_data order))) access_key
        (some (resolver_access_data (record { bump = 1 })));
  unix_timestamp = 150;
}

abbrev ledger_of : Result Ledger → Ledger
ledger_of (ok l) = l
ledger_of (err e) = before

abbrev filled : Ledger
filled = ledger_of (create_escrow model signed accounts 40 (some proof) auction before)

-- The fill of all that remains, with the last secret.
abbrev last_key : ℕ
last_key = 60 * 256 + 255

abbrev last_accounts : CreateEscrow
last_accounts = record accounts { escrow = last_key; escrow_ata = ata last_key }

abbrev last_proof : MerkleProof
last_proof = record { proof = []; index = 4; hashed_secret = 77 }

abbrev completed : Ledger
completed = ledger_of (create_escrow model signed last_accounts 60 (some last_proof) auction filled)

runs :
    (create_escrow model signed accounts 40 (some proof) auction before ≡ ok filled)
    × (create_escrow model signed last_accounts 60 (some last_proof) auction filled ≡ ok completed)
unfolding create_escrow load_create_escrow check_resolver load_access load_order load_associated
    init_associated check_seeds find_bump escrow_seeds order_seeds get_escrow_hashlock
    amount_allowed fill_hashlock process_proof is_valid_partial_fill order_signer uni_transfer
    escrow_dst_amount calculate_rate_bump new_escrow set_deployed_at get_timelocks finish_order
    completes get_current_timestamp limbs value narrow fit div_by from_be be_bytes add64 sub64 mul64
    div64 checked_add32 fee_of
runs = (refl, refl)

abbrev both : List Fill
both = record { making = 40; index = 1 } ∷ record { making = 60; index = 4 } ∷ []

both-Runs : Runs model order_key before both completed
both-Runs =
    run signed accounts 40 proof auction refl runs.0
      (run signed last_accounts 60 last_proof auction refl runs.1 stop)

Runs-use_new_secrets_example :
    ClimbsFrom 4 both
    × (final : ℕ) × (taken both + final ≡ 100)
    × Remains order final order_key completed
Runs-use_new_secrets_example =
    Runs-use_new_secrets model model-PlatformLaws order_key order refl (omega arith) (omega arith)
      refl both-Runs
