-- ===== src/Src/DstAmount.antt =====
-- programs/cross-chain-escrow-src/src/lib.rs: `get_dst_amount`, and the share of the order's
-- destination amount that `create_escrow` passes to it. Both divisions round up.
pub mod Rounding
use solana_crosschain_protoc.Base.{ℕ, ◌-◌, Result, ok, ◌>>=◌, expect, add64, sub64}
use solana_crosschain_protoc.Uint256.{U256, U256Ops}
use solana_crosschain_protoc.Common.Constants.{base_1e7}
use solana_crosschain_protoc.Src.Auction.{AuctionData, calculate_rate_bump}

module _ (u : U256Ops) where
  -- `now` is the clock's `unix_timestamp as u64`.
  unfoldable pub get_dst_amount : ℕ → U256 → AuctionData → Result U256
  get_dst_amount now dst_amount auction = do
    rate_bump ← calculate_rate_bump now auction
    multiplier ← add64 base_1e7 rate_bump
    product ← expect (u.checked_mul dst_amount (u.from_u64 multiplier))
    raised ← expect (u.checked_add product (u.from_u64 (base_1e7 - 1)))
    expect (u.checked_div raised (u.from_u64 base_1e7))

  -- The argument of that call in `create_escrow`.
  unfoldable pub fill_share : U256 → ℕ → ℕ → Result U256
  fill_share dst_amount amount order_amount = do
    product ← expect (u.checked_mul dst_amount (u.from_u64 amount))
    raise ← sub64 order_amount 1
    raised ← expect (u.checked_add product (u.from_u64 raise))
    expect (u.checked_div raised (u.from_u64 order_amount))

  -- What `create_escrow` stores in the escrow.
  unfoldable pub escrow_dst_amount : ℕ → U256 → ℕ → ℕ → AuctionData → Result U256
  unfolding fill_share get_dst_amount
  escrow_dst_amount now dst_amount amount order_amount auction = do
    share ← fill_share dst_amount amount order_amount
    get_dst_amount now share auction
