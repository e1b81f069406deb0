-- ===== src/Tests/CancelOrders.antt =====
-- The cancellations of an order, at concrete inputs.
use solana_crosschain_protoc.Base.{
  ◌/◌, ℕ, ◌+◌, ◌*◌, ◌^◌, ◌<◌, ◌≤◌, ◌≡◌, ◌≢◌, refl, Bool, true, false, ◌||◌, ◌==◌, Option, none,
  some, Result, ok, err, min, arith, some-injective, sub64, mul64, div64,
}
use solana_crosschain_protoc.Base.Bytes.{be_bytes, from_be}
use solana_crosschain_protoc.Uint256.Reference.{limbs}
use solana_crosschain_protoc.Ledger.{
  TokenAccount, order_data, resolver_access_data, Ledger, update, get_current_timestamp,
}
use solana_crosschain_protoc.Platform.Accounts.{load_associated, load_optional, check_seeds}
use solana_crosschain_protoc.Common.Escrow.{uni_transfer}
use solana_crosschain_protoc.Src.Auction.{calculate_premium}
use solana_crosschain_protoc.Src.State.{Order}
use solana_crosschain_protoc.Src.Accounts.{
  src_id, load_access, load_order, order_seeds, check_resolver,
}
use solana_crosschain_protoc.Src.Settle.Loads.{IsResolver}
use solana_crosschain_protoc.Src.CreateEscrow.{order_signer}
use solana_crosschain_protoc.Src.CancelOrder.{
  CancelOrder, CancelOrderByResolver, load_order_accounts, return_tokens, cancel_order,
  cancel_order_by_resolver,
}
use solana_crosschain_protoc.Src.CancelOrder.Outcome.{
  cancel_order-signed, cancel_order_by_resolver-expired, cancel_order_by_resolver_reward,
}
use solana_crosschain_protoc.Tests.Model.{model, model-PlatformLaws}

abbrev signed : ℕ → Bool
signed k = k == 20 || k == 30

abbrev order_key : ℕ
order_key = 9 * 256 + 255

abbrev access_key : ℕ
access_key = 30 * 256 + 1

abbrev ata : ℕ → ℕ
ata wallet = 2 ^ 16 + wallet * 1000 + 2

abbrev order : Order
order = record {
  order_hash = 9;
  hashlock = 77;
  creator = 20;
  token = 2;
  amount = 100;
  remaining_amount = 100;
  safety_deposit = 5;
  timelocks = limbs 10;
  expiration_time = 500;
  asset_is_native = false;
  dst_amount = limbs 1000;
  dutch_auction_data_hash = 8;
  max_cancellation_premium = 90;
  cancellation_auction_duration = 60;
  allow_multiple_fills = false;
  bump = 255;
}

abbrev cancellation : CancelOrder
cancellation = record {
  creator = 20;
  mint = 2;
  order = order_key;
  order_ata = ata order_key;
  creator_ata = some (ata 20);
  token_program = 3;
}

abbrev by_resolver : CancelOrderByResolver
by_resolver = record {
  cancel = cancellation;
  resolver = 30;
  resolver_access = access_key;
  system_program = 4;
}

abbrev tokens : ℕ → ℕ → Option TokenAccount
tokens owner amount = some (record { mint = 2; owner = owner; amount = amount })

abbrev before : Ledger
before = record {
  lamports = λ k. 100;
  tokens =
      update (update (λ k. none) (ata order_key) (tokens order_key 100)) (ata 20) (tokens 20 4);
  mints = λ k. some (record { decimals = 6; transfer_fee = λ n. n / 20 });
  accounts =
      update (update (λ k. none) order_key (some (order_data order))) access_key
        (some (resolver_access_data (record { bump = 1 })));
  unix_timestamp = 530;
}

abbrev ledger_of : Result Ledger → Ledger
ledger_of (ok l) = l
ledger_of (err e) = before

abbrev cancelled : Ledger
cancelled = ledger_of (cancel_order model signed cancellation before)

abbrev cancelled_by_resolver : Ledger
cancelled_by_resolver = ledger_of (cancel_order_by_resolver model signed by_resolver 40 before)

runs :
    (cancel_order model signed cancellation before ≡ ok cancelled)
    × (cancel_order_by_resolver model signed by_resolver 40 before ≡ ok cancelled_by_resolver)
unfolding cancel_order cancel_order_by_resolver load_order_accounts return_tokens check_resolver
    load_access load_order load_associated load_optional check_seeds order_seeds order_signer
    uni_transfer calculate_premium get_current_timestamp from_be be_bytes sub64 mul64 div64
runs = (refl, refl)

cancel_order-signed_example :
    (o : Order) × (before.accounts order_key ≡ some (order_data o))
    × (signed o.creator ≡ true)
    × (cancelled.accounts order_key ≡ none)
    × ((k : ℕ) → k ≢ order_key → cancelled.accounts k ≡ before.accounts k)
    × (cancelled.tokens (ata order_key) ≡ none)
cancel_order-signed_example =
    cancel_order-signed model model-PlatformLaws signed cancellation before cancelled runs.0

cancel_order_by_resolver-expired_example :
    (o : Order) × (before.accounts order_key ≡ some (order_data o))
    × IsResolver model signed src_id 30 access_key before
    × (o.expiration_time ≤ get_current_timestamp before)
    × (0 < o.max_cancellation_premium)
    × (cancelled_by_resolver.accounts order_key ≡ none)
    × (cancelled_by_resolver.tokens (ata order_key) ≡ none)
cancel_order_by_resolver-expired_example =
    cancel_order_by_resolver-expired model model-PlatformLaws signed by_resolver 40 before
      cancelled_by_resolver runs.1

cancel_order_by_resolver_reward_example :
    (premium : ℕ) × (calculate_premium
        (get_current_timestamp before)
        order.expiration_time
        order.cancellation_auction_duration
        order.max_cancellation_premium
      ≡ ok premium)
    × (premium ≤ order.max_cancellation_premium)
    × (cancelled_by_resolver.lamports 30 ≡ before.lamports 30 + min premium 40)
cancel_order_by_resolver_reward_example =
    cancel_order_by_resolver_reward model model-PlatformLaws signed by_resolver 40 before
      cancelled_by_resolver order refl (omega arith) (omega arith) (omega arith)
      (λ (e : some (ata 20) ≡ some 30).
        let n : ata 20 ≡ 30 = some-injective (ata 20) 30 e in omega arith)
      runs.1
