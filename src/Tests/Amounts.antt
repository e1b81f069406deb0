-- ===== src/Tests/Amounts.antt =====
-- The theorems on destination amounts, at concrete inputs.
use solana_crosschain_protoc.Base.{
  ℕ, ◌+◌, ◌*◌, ◌≤◌, ◌≡◌, refl, List, [], ◌∷◌, ok, arith, add64, sub64, mul64, div64,
}
use solana_crosschain_protoc.Base.Div.{ceil_div}
use solana_crosschain_protoc.Uint256.{value}
use solana_crosschain_protoc.Uint256.Reference.{
  limbs, limbs-IsU256, reference, reference-U256Laws, fit, div_by,
}
use solana_crosschain_protoc.Common.Constants.{base_1e7}
use solana_crosschain_protoc.Src.Auction.{AuctionData, calculate_rate_bump}
use solana_crosschain_protoc.Src.DstAmount.{escrow_dst_amount}
use solana_crosschain_protoc.Src.DstAmount.Rounding.{
  Fill, escrow_dst_amount-value, fills_cover_dst_amount,
}

abbrev auction : AuctionData
auction = record {
  start_time = 100;
  duration = 100;
  initial_rate_bump = record { byte0 = 1; byte1 = 2; byte2 = 3 };
  points_and_time_deltas = [];
}

first_amount : escrow_dst_amount reference 120 (limbs 1000) 40 100 auction ≡ ok (limbs 403)
unfolding escrow_dst_amount calculate_rate_bump add64 sub64 mul64 div64 limbs value fit div_by
first_amount = refl

rest_amount : escrow_dst_amount reference 150 (limbs 1000) 60 100 auction ≡ ok (limbs 602)
unfolding escrow_dst_amount calculate_rate_bump add64 sub64 mul64 div64 limbs value fit div_by
rest_amount = refl

escrow_dst_amount-value_example :
    (bump : ℕ) × (calculate_rate_bump 120 auction ≡ ok bump)
    × (value (limbs 403)
        ≡ ceil_div (ceil_div (value (limbs 1000) * 40) 100 * (base_1e7 + bump)) base_1e7)
escrow_dst_amount-value_example =
    escrow_dst_amount-value reference reference-U256Laws 120 (limbs 1000) 40 100 auction
      (limbs-IsU256 1000) (omega arith) (omega arith) (omega arith) first_amount

abbrev fills : List Fill
fills =
    record { now = 120; amount = 40; result = limbs 403 }
    ∷ record { now = 150; amount = 60; result = limbs 602 }
    ∷ []

fills_cover_dst_amount_example : value (limbs 1000) ≤ value (limbs 403) + (value (limbs 602) + 0)
fills_cover_dst_amount_example =
    fills_cover_dst_amount reference reference-U256Laws (limbs 1000) 100 auction fills
      (limbs-IsU256 1000) (omega arith) (omega arith)
      (omega arith, first_amount, (omega arith, rest_amount, tt)) refl
