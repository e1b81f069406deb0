-- ===== src/Src/Auction/Premium.antt =====
-- The premium of a cancellation by a resolver grows linearly over the auction.
use solana_crosschain_protoc.Base.{
  ℕ, ◌+◌, ◌-◌, ◌*◌, ◌/◌, ◌^◌, ◌<◌, ◌≤◌, ◌≡◌, ok, err, panicked, arith, sub64, mul64, div64,
}
use solana_crosschain_protoc.Src.Auction.{calculate_premium}
use solana_crosschain_protoc.Base.Div.{div-le, div_mono}
use native.Mathlib.Nat.{mul-le-mul_right}

-- On every branch: nothing up to the start, the whole premium from the end on, and the linear
-- share between, or a panic where its product leaves u64.
pub premium_before :
    (now start duration most : ℕ) → now ≤ start → calculate_premium now start duration most ≡ ok 0
unfolding calculate_premium
premium_before now start duration most h = ground arith

pub premium_after :
    (now start duration most : ℕ)
    → start < now
    → start + duration ≤ now
    → calculate_premium now start duration most ≡ ok most
unfolding calculate_premium sub64
premium_after now start duration most h g = ground arith

pub premium_during :
    (now start duration most : ℕ)
    → start < now
    → now < start + duration
    → (now - start) * most < 2 ^ 64
    → calculate_premium now start duration most ≡ ok ((now - start) * most / duration)
unfolding calculate_premium sub64 mul64 div64
premium_during now start duration most h g fits = ground arith

pub premium_overflow :
    (now start duration most : ℕ)
    → start < now
    → now < start + duration
    → 2 ^ 64 ≤ (now - start) * most
    → calculate_premium now start duration most ≡ err panicked
unfolding calculate_premium sub64 mul64 div64
premium_overflow now start duration most h g big = ground arith

-- What a premium that is paid amounts to.
premium_paid :
    (now start duration most : ℕ) {premium : ℕ}
    → calculate_premium now start duration most ≡ ok premium
    → (now ≤ start → premium ≡ 0)
      × (start < now → start + duration ≤ now → premium ≡ most)
      × (start < now → now < start + duration → premium ≡ (now - start) * most / duration)
unfolding calculate_premium sub64 mul64 div64
premium_paid now start duration most h = (ground arith, ground arith, ground arith)

share-le : (elapsed duration most : ℕ) → elapsed ≤ duration → elapsed * most / duration ≤ most
share-le elapsed duration most h = div-le (elapsed * most) duration most (mul-le-mul_right most h)

share_mono :
    (elapsed later duration most : ℕ)
    → elapsed ≤ later
    → elapsed * most / duration ≤ later * most / duration
share_mono elapsed later duration most h = div_mono _ _ duration (mul-le-mul_right most h)

-- The premium never falls while time passes, and it is never more than the maker's limit.
pub premium_mono :
    (now later start duration most : ℕ) {premium premium' : ℕ}
    → calculate_premium now start duration most ≡ ok premium
    → calculate_premium later start duration most ≡ ok premium'
    → now ≤ later
    → (premium ≤ premium') × (premium' ≤ most)
premium_mono now later start duration most h h' le = ground (
  arith,
  premium_paid now start duration most h,
  premium_paid later start duration most h',
  share-le (now - start) duration most,
  share-le (later - start) duration most,
  share_mono (now - start) (later - start) duration most,
)
