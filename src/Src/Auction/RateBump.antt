-- ===== src/Src/Auction/RateBump.antt =====
-- `calculate_rate_bump` is the curve: it never panics on data of the types' ranges, it stays
-- below the data's bumps, and it never rises where they descend.
use solana_crosschain_protoc.Base.{
  ℕ, ◌+◌, ◌-◌, ◌*◌, ◌^◌, ◌<◌, ◌≤◌, ◌≡◌, List, [], ◌∷◌, arith, max, ok, add64, sub64, mul64, div64,
}
use solana_crosschain_protoc.Src.Auction.{
  IsU24, to_u64, PointAndTimeDelta, AuctionData, interpolate, decay, walk_points,
  calculate_rate_bump,
}
use solana_crosschain_protoc.Src.Auction.U24Bits.{to_u64-lt}
use solana_crosschain_protoc.Src.Auction.Piecewise.{
  line, curve, rate_curve, highest, Descends, curve-le-highest, Descends-highest, curve_anti,
}
use native.Mathlib.Nat.{mul-le-mul_right, mul_comm}

-- Every field lies in the range of its type.
abbrev pub ArePoints : List PointAndTimeDelta → Type 0
ArePoints [] = Unit
ArePoints (p ∷ ps) = IsU24 p.rate_bump × (p.time_delta < 2 ^ 16) × ArePoints ps

pub record IsAuctionData (d : AuctionData) : Type 0 where
  pub start_fits : d.start_time < 2 ^ 32
  pub duration_fits : d.duration < 2 ^ 32
  pub initial_fits : IsU24 d.initial_rate_bump
  pub points_fit : ArePoints d.points_and_time_deltas

-- A product of a time and a bump stays far below u64.
product_fits : (x y : ℕ) → x < 2 ^ 33 → y < 2 ^ 24 → x * y ≤ 2 ^ 33 * 2 ^ 24
product_fits x y h g =
    let bound : x ≤ 2 ^ 33 = omega arith in omega (arith, mul-le-mul_right y bound)

interpolate_lem :
    (t from a delta b : ℕ)
    → from < t
    → t ≤ from + delta
    → delta < 2 ^ 16
    → a < 2 ^ 24
    → b < 2 ^ 24
    → interpolate t from (from + delta) a b delta ≡ ok (line t from a (from + delta) b)
unfolding interpolate add64 sub64 mul64 div64
interpolate_lem t from a delta b h g k ha hb =
    let span : from + delta - from ≡ delta = omega arith in
    rw span (ground (arith, product_fits (t - from) b, product_fits (from + delta - t) a))

decay_lem :
    (t finish a from : ℕ)
    → from < t
    → t < finish
    → finish < 2 ^ 33
    → a < 2 ^ 24
    → decay t finish a from ≡ ok (line t from a finish 0)
unfolding decay sub64 mul64 div64
decay_lem t finish a from h g k ha =
    let numerator : (t - from) * 0 + (finish - t) * a ≡ a * (finish - t) =
      omega (arith, mul_comm a (finish - t)) in
    rw numerator (ground (arith, product_fits (finish - t) a, mul_comm a (finish - t)))

walk_points_lem :
    (t finish a from : ℕ) (ps : List PointAndTimeDelta)
    → from < t
    → t < finish
    → finish < 2 ^ 33
    → a < 2 ^ 24
    → ArePoints ps
    → walk_points t finish a from ps ≡ ok (curve t finish a from ps)
unfolding walk_points add64
walk_points_lem t finish a from [] h g k ha v = decay_lem t finish a from h g k ha
walk_points_lem t finish a from (p ∷ ps) h g k ha v = ground (
  arith,
  to_u64-lt p.rate_bump v.0,
  interpolate_lem t from a p.time_delta (to_u64 p.rate_bump),
  walk_points_lem t finish (to_u64 p.rate_bump) (from + p.time_delta) ps,
)

-- On data in the ranges of its types, and at any time, the rate bump is computed without a panic
-- and equals the piecewise linear curve of the data.
pub calculate_rate_bump-eq-rate_curve :
    (t : ℕ) (d : AuctionData) → IsAuctionData d → calculate_rate_bump t d ≡ ok (rate_curve t d)
unfolding calculate_rate_bump add64
calculate_rate_bump-eq-rate_curve t d v = ground (
  arith,
  to_u64-lt d.initial_rate_bump v.initial_fits,
  walk_points_lem t (d.start_time + d.duration) (to_u64 d.initial_rate_bump) d.start_time
      d.points_and_time_deltas,
)

-- The rate bump is never more than the highest bump of the data.
pub calculate_rate_bump-le :
    (t : ℕ) (d : AuctionData) {bump : ℕ}
    → IsAuctionData d
    → calculate_rate_bump t d ≡ ok bump
    → bump ≤ max (to_u64 d.initial_rate_bump) (highest d.points_and_time_deltas)
calculate_rate_bump-le t d v h = ground (
  arith,
  calculate_rate_bump-eq-rate_curve t d v,
  curve-le-highest t (d.start_time + d.duration) (to_u64 d.initial_rate_bump) d.start_time
      d.points_and_time_deltas
      (max (to_u64 d.initial_rate_bump) (highest d.points_and_time_deltas)),
)

-- Where each bump is no more than the one before it, the rate bump never rises as time passes.
pub calculate_rate_bump_anti :
    (s t : ℕ) (d : AuctionData) {early late : ℕ}
    → IsAuctionData d
    → Descends (to_u64 d.initial_rate_bump) d.points_and_time_deltas
    → s ≤ t
    → calculate_rate_bump s d ≡ ok early
    → calculate_rate_bump t d ≡ ok late
    → late ≤ early
calculate_rate_bump_anti s t d v down le hs ht = ground (
  arith,
  calculate_rate_bump-eq-rate_curve s d v,
  calculate_rate_bump-eq-rate_curve t d v,
  Descends-highest (to_u64 d.initial_rate_bump) d.points_and_time_deltas down,
  curve-le-highest t (d.start_time + d.duration) (to_u64 d.initial_rate_bump) d.start_time
      d.points_and_time_deltas (to_u64 d.initial_rate_bump),
  curve_anti s t (d.start_time + d.duration) (to_u64 d.initial_rate_bump) d.start_time
      d.points_and_time_deltas,
)
