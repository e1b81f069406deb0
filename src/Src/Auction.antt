-- ===== src/Src/Auction.antt =====
-- programs/cross-chain-escrow-src/src/auction.rs: the Dutch auction's rate bump, the premium of a
-- cancellation, and the 24-bit numbers of the auction's data.
pub mod U24Bits
pub mod Premium
pub mod Piecewise
pub mod RateBump
use Prim.Native.Nat.{bit_or}
use solana_crosschain_protoc.Base.{
  ℕ, ◌+◌, ◌-◌, ◌*◌, ◌/◌, ◌%◌, ◌^◌, ◌<◌, List, [], ◌∷◌, Result, ok, err, panicked, ◌>>=◌, add64,
  sub64, mul64, div64, leb, if◌then◌else◌,
}

-- `struct U24([u8; 3])`, the highest byte first.
pub record U24 : Type 0 where
  pub byte0 : ℕ
  pub byte1 : ℕ
  pub byte2 : ℕ

pub record IsU24 (n : U24) : Type 0 where
  pub fits0 : n.byte0 < 256
  pub fits1 : n.byte1 < 256
  pub fits2 : n.byte2 < 256

-- A left shift of a u32 drops what leaves the word.
unfoldable pub to_u32 : U24 → ℕ
to_u32 n = bit_or (bit_or (n.byte0 * 2 ^ 16 % 2 ^ 32) (n.byte1 * 2 ^ 8 % 2 ^ 32)) n.byte2

unfoldable pub to_u64 : U24 → ℕ
unfolding to_u32
to_u64 n = to_u32 n

-- `impl From<u32> for U24`
unfoldable pub from_u32 : ℕ → Result U24
from_u32 val =
    if leb val 0xff_ffff
    then ok (record { byte0 = val / 2 ^ 16 % 256; byte1 = val / 2 ^ 8 % 256; byte2 = val % 256 })
    else err panicked

pub record PointAndTimeDelta : Type 0 where
  pub rate_bump : U24
  pub time_delta : ℕ  -- u16

pub record AuctionData : Type 0 where
  pub start_time : ℕ  -- u32
  pub duration : ℕ  -- u32
  pub initial_rate_bump : U24
  pub points_and_time_deltas : List PointAndTimeDelta

-- The bump between two points, at a time after the first and not after the second. The operators
-- panic where they leave u64.
unfoldable pub interpolate : ℕ → ℕ → ℕ → ℕ → ℕ → ℕ → Result ℕ
interpolate timestamp current_time next_time current_bump next_bump time_delta = do
  since ← sub64 timestamp current_time
  rise ← mul64 since next_bump
  until ← sub64 next_time timestamp
  fall ← mul64 until current_bump
  total ← add64 rise fall
  div64 total time_delta

-- What follows the loop: the bump between the last point and the finish, where it is zero.
unfoldable pub decay : ℕ → ℕ → ℕ → ℕ → Result ℕ
decay timestamp finish current_rate_bump current_point_time = do
  left ← sub64 finish timestamp
  scaled ← mul64 current_rate_bump left
  span ← sub64 finish current_point_time
  div64 scaled span

-- The loop over the points, with its two variables.
unfoldable pub walk_points : ℕ → ℕ → ℕ → ℕ → List PointAndTimeDelta → Result ℕ
unfolding interpolate decay
walk_points timestamp finish current_rate_bump current_point_time [] =
    decay timestamp finish current_rate_bump current_point_time
walk_points timestamp finish current_rate_bump current_point_time (point ∷ points) = do
  let next_rate_bump = to_u64 point.rate_bump
  next_point_time ← add64 current_point_time point.time_delta
  let later = walk_points timestamp finish next_rate_bump next_point_time points
  if leb timestamp next_point_time
      then interpolate timestamp current_point_time next_point_time current_rate_bump next_rate_bump
          point.time_delta
      else later

unfoldable pub calculate_rate_bump : ℕ → AuctionData → Result ℕ
unfolding walk_points to_u64
calculate_rate_bump timestamp auction =
    if leb timestamp auction.start_time then ok (to_u64 auction.initial_rate_bump) else running
  where
    running : Result ℕ
    running = do
      auction_finish_time ← add64 auction.start_time auction.duration
      if leb auction_finish_time timestamp
          then ok 0
          else (walk_points timestamp auction_finish_time (to_u64 auction.initial_rate_bump)
              auction.start_time auction.points_and_time_deltas)

-- Timestamps and durations are u32.
unfoldable pub calculate_premium : ℕ → ℕ → ℕ → ℕ → Result ℕ
calculate_premium timestamp auction_start_time auction_duration max_cancellation_premium =
    if leb timestamp auction_start_time then ok 0 else running
  where
    running : Result ℕ
    running = do
      time_elapsed ← sub64 timestamp auction_start_time
      if leb auction_duration time_elapsed then ok max_cancellation_premium else (do
        scaled ← mul64 time_elapsed max_cancellation_premium
        div64 scaled auction_duration)
