-- ===== src/Tests/Orders.antt =====
-- A new order, at concrete inputs.
use solana_crosschain_protoc.Base.{
  ◌/◌, ℕ, ◌+◌, ◌*◌, ◌^◌, Bool, true, false, ◌==◌, none, some, Result, ok, err,
}
use solana_crosschain_protoc.Uint256.Reference.{limbs}
use solana_crosschain_protoc.Ledger.{Ledger, update}
use solana_crosschain_protoc.Src.Create.{Create, OrderArgs, create}
use solana_crosschain_protoc.Tests.Model.{model}

abbrev signed : ℕ → Bool
signed k = k == 20

abbrev order_key : ℕ
order_key = 9 * 256 + 255

abbrev ata : ℕ → ℕ
ata wallet = 2 ^ 16 + wallet * 1000 + 2

abbrev creation : Create
creation = record {
  creator = 20;
  mint = 2;
  creator_ata = some (ata 20);
  order = order_key;
  order_ata = ata order_key;
  token_program = 3;
  system_program = 4;
}

abbrev args : OrderArgs
args = record {
  hashlock = 4 * 2 ^ 240 + 77;
  amount = 100;
  safety_deposit = 5;
  timelocks = limbs 10;
  expiration_time = 500;
  asset_is_native = false;
  dst_amount = limbs 1000;
  dutch_auction_data_hash = 8;
  max_cancellation_premium = 90;
  cancellation_auction_duration = 60;
  allow_multiple_fills = true;
  salt = 9;
}

abbrev before : Ledger
before = record {
  lamports = λ k. 100;
  tokens = update (λ k. none) (ata 20) (some (record { mint = 2; owner = 20; amount = 200 }));
  mints = λ k. some (record { decimals = 6; transfer_fee = λ n. n / 20 });
  accounts = λ k. none;
  unix_timestamp = 150;
}

abbrev ledger_of : Result Ledger → Ledger
ledger_of (ok l) = l
ledger_of (err e) = before

abbrev opened : Ledger
opened = ledger_of (create model signed creation args before)
