-- ===== src/Base/Bits.antt =====
-- `&`, `|` and shifts of Rust's unsigned integers, as arithmetic: a low mask is a remainder, and
-- the union of disjoint fields is a sum, at every width.
use Prim.Native.Nat.{
  ℕ, zero, suc, ◌+◌, ◌-◌, ◌*◌, ◌/◌, ◌%◌, ◌^◌, ◌≤◌, ◌<◌, min, max, bit_and, bit_or, digits,
  bit_and-bitwise, bit_or-bitwise,
}
use mathlib.Core.Path.{◌≡◌, refl, ap}
use native.Mathlib.Omega.{arith}
use native.Mathlib.Nat.{pow-suc, one-le-pow}

-- A count of digits that covers the number makes no difference to the result.
module _ (z : ℕ → ℕ) (f : ℕ → ℕ → ℕ) where
  digits-enough : (i j x y : ℕ) → x ≤ i → x ≤ j → digits z f i x y ≡ digits z f j x y
  digits-enough zero zero x y hi hj = refl
  digits-enough zero (suc j) zero y hi hj = refl
  digits-enough (suc i) zero zero y hi hj = refl
  digits-enough (suc i) (suc j) zero y hi hj = refl
  digits-enough zero j (suc x) y hi hj = absurd (omega arith)
  digits-enough (suc i) zero (suc x) y hi hj = absurd (omega arith)
  digits-enough (suc i) (suc j) (suc x) y hi hj =
      ap (λ (t : ℕ). t * 2 + f (suc x % 2) (y % 2))
        (digits-enough i j (suc x / 2) (y / 2) (omega arith) (omega arith))

  -- One digit off a number that has some.
  digits-half :
      (x y : ℕ)
      → digits z f (suc x) (suc x) y
        ≡ digits z f (suc x / 2) (suc x / 2) (y / 2) * 2 + f (suc x % 2) (y % 2)
  digits-half x y =
      ap (λ (t : ℕ). t * 2 + f (suc x % 2) (y % 2))
        (digits-enough x (suc x / 2) (suc x / 2) (y / 2) (omega arith) (omega arith))

and-half : (x y : ℕ) → bit_and x y ≡ bit_and (x / 2) (y / 2) * 2 + min (x % 2) (y % 2)
and-half zero y = omega (arith, bit_and-bitwise 0 y, bit_and-bitwise 0 (y / 2))
and-half (suc x) y = omega (
  arith,
  bit_and-bitwise (suc x) y,
  bit_and-bitwise (suc x / 2) (y / 2),
  digits-half (λ b. zero) min x y,
)

or-half : (x y : ℕ) → bit_or x y ≡ bit_or (x / 2) (y / 2) * 2 + max (x % 2) (y % 2)
or-half zero y = omega (arith, bit_or-bitwise 0 y, bit_or-bitwise 0 (y / 2))
or-half (suc x) y = omega (
  arith,
  bit_or-bitwise (suc x) y,
  bit_or-bitwise (suc x / 2) (y / 2),
  digits-half (λ b. b) max x y,
)

-- The second number has run out.
and-zero : (fuel x : ℕ) → x ≤ fuel → bit_and x 0 ≡ 0
and-zero fuel zero h = omega (arith, bit_and-bitwise 0 0)
and-zero zero (suc x) h = absurd (omega arith)
and-zero (suc fuel) (suc x) h =
    omega (arith, and-half (suc x) 0, and-zero fuel (suc x / 2) (omega arith))

or-zero : (fuel x : ℕ) → x ≤ fuel → bit_or x 0 ≡ x
or-zero fuel zero h = omega (arith, bit_or-bitwise 0 0)
or-zero zero (suc x) h = absurd (omega arith)
or-zero (suc fuel) (suc x) h =
    omega (arith, or-half (suc x) 0, or-zero fuel (suc x / 2) (omega arith))

-- A product with a power of two, doubled.
double_pow : (q k : ℕ) → q * 2 ^ suc k ≡ q * 2 ^ k + q * 2 ^ k
double_pow q k = omega (arith, ap (λ (t : ℕ). q * t) (pow-suc 2 k))

-- `x & (2^k - 1)` keeps the low `k` bits.
and-split : (k hi lo : ℕ) → lo < 2 ^ k → bit_and (hi * 2 ^ k + lo) (2 ^ k - 1) ≡ lo
and-split zero hi lo h = ground (arith, and-zero (hi * 1 + lo) (hi * 1 + lo))
and-split (suc k) hi lo h = ground (
  arith,
  and-half (hi * 2 ^ suc k + lo) (2 ^ suc k - 1),
  pow-suc 2 k,
  double_pow hi k,
  one-le-pow k 2,
  and-split k hi (lo / 2),
)

pub and_low_mask : (k x : ℕ) → bit_and x (2 ^ k - 1) ≡ x % 2 ^ k
and_low_mask k x = ground (arith, one-le-pow k 2, and-split k (x / 2 ^ k) (x % 2 ^ k))

-- `(hi << k) | lo` is a sum where `lo` fits in `k` bits.
pub or_fields : (k hi lo : ℕ) → lo < 2 ^ k → bit_or (hi * 2 ^ k) lo ≡ hi * 2 ^ k + lo
or_fields zero hi lo h = ground (arith, or-zero hi hi)
or_fields (suc k) hi lo h =
    ground
      (arith, or-half (hi * 2 ^ suc k) lo, pow-suc 2 k, double_pow hi k, or_fields k hi (lo / 2))

-- The same union with the low field first.
pub or_fields_low : (k hi lo : ℕ) → lo < 2 ^ k → bit_or lo (hi * 2 ^ k) ≡ hi * 2 ^ k + lo
or_fields_low zero hi lo h = ground (arith, bit_or-bitwise 0 hi)
or_fields_low (suc k) hi lo h =
    ground (
      arith,
      or-half lo (hi * 2 ^ suc k),
      pow-suc 2 k,
      double_pow hi k,
      or_fields_low k hi (lo / 2),
    )

-- Both operations stay within the width of their arguments.
pub bit_and-lt : (k x y : ℕ) → y < 2 ^ k → bit_and x y < 2 ^ k
bit_and-lt zero x y h = ground (arith, and-zero x x)
bit_and-lt (suc k) x y h = ground (arith, and-half x y, pow-suc 2 k, bit_and-lt k (x / 2) (y / 2))

pub bit_or-lt : (k x y : ℕ) → x < 2 ^ k → y < 2 ^ k → bit_or x y < 2 ^ k
bit_or-lt zero x y g h = ground (arith, or-zero 0 0)
bit_or-lt (suc k) x y g h = ground (arith, or-half x y, pow-suc 2 k, bit_or-lt k (x / 2) (y / 2))
