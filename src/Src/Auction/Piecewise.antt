-- ===== src/Src/Auction/Piecewise.antt =====
-- The auction's curve as a specification: straight lines from point to point, and from the last
-- point down to zero at the finish.
use solana_crosschain_protoc.Base.{
  ℕ, ◌+◌, ◌-◌, ◌*◌, ◌/◌, ◌<◌, ◌≤◌, ◌≡◌, ap, List, [], ◌∷◌, arith, leb, if◌then◌else◌, max,
}
use solana_crosschain_protoc.Base.Div.{div-le, le-div, div_mono}
use solana_crosschain_protoc.Src.Auction.{to_u64, PointAndTimeDelta, AuctionData}
use native.Mathlib.Nat.{mul-le-mul_left, add-mul, mul_comm}

-- The line from `(from, a)` to `(to, b)`, rounded down.
abbrev pub line : ℕ → ℕ → ℕ → ℕ → ℕ → ℕ
line t from a to b = ((t - from) * b + (to - t) * a) / (to - from)

-- The curve after the point `(from, a)`.
abbrev pub curve : ℕ → ℕ → ℕ → ℕ → List PointAndTimeDelta → ℕ
curve t finish a from [] = line t from a finish 0
curve t finish a from (p ∷ ps) =
    let to = from + p.time_delta in
    if leb t to
    then line t from a to (to_u64 p.rate_bump)
    else curve t finish (to_u64 p.rate_bump) to ps

-- The whole curve: level before the start, zero from the finish on.
abbrev pub rate_curve : ℕ → AuctionData → ℕ
rate_curve t d =
    if leb t d.start_time
    then to_u64 d.initial_rate_bump
    else if leb (d.start_time + d.duration) t
    then 0
    else curve t (d.start_time + d.duration) (to_u64 d.initial_rate_bump) d.start_time
        d.points_and_time_deltas

-- The highest bump of the points.
abbrev pub highest : List PointAndTimeDelta → ℕ
highest [] = 0
highest (p ∷ ps) = max (to_u64 p.rate_bump) (highest ps)

-- Each point's bump is no more than the one before it.
abbrev pub Descends : ℕ → List PointAndTimeDelta → Type 0
Descends a [] = Unit
Descends a (p ∷ ps) = (to_u64 p.rate_bump ≤ a) × Descends (to_u64 p.rate_bump) ps

-- The weights of the two ends of a line add up to its length.
weights : (t from to q : ℕ) → from < t → t ≤ to → (t - from) * q + (to - t) * q ≡ (to - from) * q
weights t from to q h g = omega (
  arith,
  add-mul (t - from) (to - t) q,
  ap (λ (w : ℕ). w * q) (let e : t - from + (to - t) ≡ to - from = omega arith in e),
)

-- A line stays below what bounds both of its ends, and above what both of its ends reach.
pub line-le : (t from a to b q : ℕ) → from < t → t ≤ to → a ≤ q → b ≤ q → line t from a to b ≤ q
line-le t from a to b q h g ha hb = div-le _ (to - from) q (
    omega
      (arith, mul-le-mul_left (t - from) hb, mul-le-mul_left (to - t) ha, weights t from to q h g))

pub le-line : (t from a to b q : ℕ) → from < t → t ≤ to → q ≤ a → q ≤ b → q ≤ line t from a to b
le-line t from a to b q h g ha hb = le-div _ (to - from) q (omega arith) (
    omega (
      arith,
      mul-le-mul_left (t - from) hb,
      mul-le-mul_left (to - t) ha,
      weights t from to q h g,
      mul_comm q (to - from),
    ))

-- Moving weight to the lower end lowers the sum.
shift_weight : (u v w a b : ℕ) → b ≤ a → (u + v) * b + w * a ≤ u * b + (v + w) * a
shift_weight u v w a b h = omega (arith, mul-le-mul_left v h, add-mul u v b, add-mul v w a)

-- A falling line falls.
pub line_anti :
    (s t from a to b : ℕ)
    → from < s
    → s ≤ t
    → t ≤ to
    → b ≤ a
    → line t from a to b ≤ line s from a to b
line_anti s t from a to b h g k ba =
    let before : t - from ≡ s - from + (t - s) = omega arith in
    let after : to - s ≡ t - s + (to - t) = omega arith in
    div_mono _ _ (to - from) (rw (before, after) (shift_weight (s - from) (t - s) (to - t) a b ba))

-- The curve stays below its points.
pub curve-le-highest :
    (t finish a from : ℕ) (ps : List PointAndTimeDelta) (q : ℕ)
    → from < t
    → t ≤ finish
    → a ≤ q
    → highest ps ≤ q
    → curve t finish a from ps ≤ q
curve-le-highest t finish a from [] q h g ha hp = line-le t from a finish 0 q h g ha (omega arith)
curve-le-highest t finish a from (p ∷ ps) q h g ha hp = ground (
  arith,
  line-le t from a (from + p.time_delta) (to_u64 p.rate_bump) q,
  curve-le-highest t finish (to_u64 p.rate_bump) (from + p.time_delta) ps q,
)

pub Descends-highest : (a : ℕ) (ps : List PointAndTimeDelta) → Descends a ps → highest ps ≤ a
Descends-highest a [] h = omega arith
Descends-highest a (p ∷ ps) h = omega (arith, Descends-highest (to_u64 p.rate_bump) ps h.1)

-- A curve whose points descend never rises.
pub curve_anti :
    (s t finish a from : ℕ) (ps : List PointAndTimeDelta)
    → from < s
    → s ≤ t
    → t ≤ finish
    → Descends a ps
    → curve t finish a from ps ≤ curve s finish a from ps
curve_anti s t finish a from [] h g k d = line_anti s t from a finish 0 h g k (omega arith)
curve_anti s t finish a from (p ∷ ps) h g k d =
    let to = from + p.time_delta in
    let b = to_u64 p.rate_bump in
    ground (
      arith,
      line_anti s t from a to b,
      le-line s from a to b b,
      curve-le-highest t finish b to ps b,
      Descends-highest b ps,
      curve_anti s t finish b to ps,
    )
