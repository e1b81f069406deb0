-- ===== src/Src/Fill/Parts.antt =====
-- `is_valid_partial_fill` on all its branches, and where its products leave u64.
use solana_crosschain_protoc.Base.{
  ℕ, ◌+◌, ◌-◌, ◌*◌, ◌/◌, ◌^◌, ◌<◌, ◌≤◌, ◌≡◌, ap, ◌≢◌, ◌⊎◌, true, ok, err, panicked, arith, add64,
  sub64, mul64, div64,
}
use solana_crosschain_protoc.Src.Fill.{is_valid_partial_fill}

-- The part of an order of `total` in `parts` parts that its `reached`-th unit lies in.
abbrev pub part_of : ℕ → ℕ → ℕ → ℕ
part_of total parts reached = (reached - 1) * parts / total

-- Which index a fill must show: the part where it ends, which must not be the part where the fill
-- before ended; and one more than that part, where the fill completes the order.
abbrev pub FillsPart : ℕ → ℕ → ℕ → ℕ → ℕ → Type 0
FillsPart making remaining total parts index =
    let filled = total - remaining in
    let part = part_of total parts (filled + making) in
    ((remaining ≡ making) × (index ≡ part + 1))
    ⊎ ((remaining ≢ making)
        × (index ≡ part)
        × ((total ≡ remaining) ⊎ (part ≢ part_of total parts filled)))

-- A fill's state: some of the order is left, and the fill takes some of that.
pub record IsFill (making remaining total parts : ℕ) : Type 0 where
  pub some_taken : 0 < making
  pub covered : making ≤ remaining
  pub remaining-le : remaining ≤ total
  pub total_fits : total < 2 ^ 64
  pub parts_fit : parts < 2 ^ 16
  pub product_fits : total * parts < 2 ^ 64

-- What the test accepts has gone through its arithmetic, and is what `FillsPart` allows.
pub is_valid_partial_fill-FillsPart :
    (making remaining total parts index : ℕ)
    → is_valid_partial_fill making remaining total parts index ≡ ok true
    → FillsPart making remaining total parts index
unfolding is_valid_partial_fill add64 sub64 mul64 div64
is_valid_partial_fill-FillsPart making remaining total parts index h = ground arith

-- Where the product leaves u64 the test panics, whatever index is shown.
pub is_valid_partial_fill_overflow :
    (making remaining total parts index : ℕ)
    → 0 < making
    → making ≤ remaining
    → remaining ≤ total
    → total < 2 ^ 64
    → 2 ^ 64 ≤ (total - remaining + making - 1) * parts
    → is_valid_partial_fill making remaining total parts index ≡ err panicked
unfolding is_valid_partial_fill add64 sub64 mul64 div64
is_valid_partial_fill_overflow making remaining total parts index h g k t big = ground arith

-- So an order of `total` units in `parts` parts with `(total - 1) * parts` at or above 2^64 can
-- never be completed: the fill that takes all that remains panics at every index.
pub large_order_never_completes :
    (remaining total parts index : ℕ)
    → 0 < remaining
    → remaining ≤ total
    → total < 2 ^ 64
    → 2 ^ 64 ≤ (total - 1) * parts
    → is_valid_partial_fill remaining remaining total parts index ≡ err panicked
large_order_never_completes remaining total parts index h g t big =
    is_valid_partial_fill_overflow remaining remaining total parts index h (omega arith) g t (
      omega (
        arith,
        ap (λ (x : ℕ). x * parts)
            (let e : total - remaining + remaining - 1 ≡ total - 1 = omega arith in e),
      ))

-- A fill of nothing is never accepted: it panics as the first fill, and is refused later.
pub empty_fill_refused :
    (remaining total parts index : ℕ)
    → 0 < remaining
    → is_valid_partial_fill 0 remaining total parts index ≢ ok true
unfolding is_valid_partial_fill add64 sub64 mul64 div64
empty_fill_refused remaining total parts index h e = ground arith
