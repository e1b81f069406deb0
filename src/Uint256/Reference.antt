-- ===== src/Uint256/Reference.antt =====
-- Operators on 256-bit numbers that meet the laws: each takes the value apart into limbs again.
use solana_crosschain_protoc.Base.{
  ℕ, ◌+◌, ◌-◌, ◌*◌, ◌/◌, ◌%◌, ◌^◌, ◌<◌, ◌≡◌, ◌≢◌, Option, none, some, arith, ltb, if◌then◌else◌,
}
use solana_crosschain_protoc.Uint256.{U256, IsU256, value, value-lt, U256Ops, U256Laws}
use solana_crosschain_protoc.Base.Bits.{bit_and-lt, bit_or-lt}
use Prim.Native.Nat.{bit_and, bit_or}

-- The limbs of a number below 2^256.
unfoldable pub limbs : ℕ → U256
limbs n = record {
  limb0 = n % 2 ^ 64;
  limb1 = n / 2 ^ 64 % 2 ^ 64;
  limb2 = n / 2 ^ 128 % 2 ^ 64;
  limb3 = n / 2 ^ 192 % 2 ^ 64;
}

pub limbs-IsU256 : (n : ℕ) → IsU256 (limbs n)
unfolding limbs
limbs-IsU256 n = omega arith

pub value-limbs : (n : ℕ) → value (limbs n) ≡ n % 2 ^ 256
unfolding limbs value
value-limbs n = omega arith

value-limbs_small : (n : ℕ) → n < 2 ^ 256 → value (limbs n) ≡ n
value-limbs_small n h = omega (arith, value-limbs n)

-- A result that fits, or nothing.
unfoldable pub fit : ℕ → Option U256
fit n = if ltb n (2 ^ 256) then some (limbs n) else none

fit-some : (n : ℕ) (r : U256) → fit n ≡ some r → IsU256 r × (value r ≡ n)
unfolding fit
fit-some n r h = ground (arith, limbs-IsU256 n, value-limbs_small n)

fit_fits : (n : ℕ) → n < 2 ^ 256 → fit n ≢ none
unfolding fit
fit_fits n h e = ground arith

unfoldable pub div_by : ℕ → ℕ → Option U256
div_by a b = if ltb 0 b then some (limbs (a / b)) else none

div_by-some :
    (a b : ℕ) (r : U256) → a < 2 ^ 256 → div_by a b ≡ some r → IsU256 r × (value r ≡ a / b)
unfolding div_by
div_by-some a b r g h = ground (arith, limbs-IsU256 (a / b), value-limbs_small (a / b))

div_by_fits : (a b : ℕ) → 0 < b → div_by a b ≢ none
unfolding div_by
div_by_fits a b h e = ground arith

unfoldable pub narrow : ℕ → Option ℕ
narrow n = if ltb n (2 ^ 32) then some n else none

narrow_lem : (n : ℕ) → n < 2 ^ 32 → narrow n ≡ some n
unfolding narrow
narrow_lem n h = ground arith

abbrev pub reference : U256Ops
reference = record {
  from_u64 = limbs;
  bitand = λ a b. limbs (bit_and (value a) (value b));
  bitor = λ a b. limbs (bit_or (value a) (value b));
  bitnot = λ a. limbs (2 ^ 256 - 1 - value a);
  shl = λ a k. limbs (value a * 2 ^ k % 2 ^ 256);
  shr = λ a k. limbs (value a / 2 ^ k);
  as_u32 = λ a. narrow (value a);
  checked_add = λ a b. fit (value a + value b);
  checked_mul = λ a b. fit (value a * value b);
  checked_div = λ a b. div_by (value a) (value b);
}

pub reference-U256Laws : U256Laws reference
reference-U256Laws = record {
  from_u64_fits = λ n h. limbs-IsU256 n;
  from_u64_value = λ n h. value-limbs_small n (omega arith);
  bitand_fits = λ a b g h. limbs-IsU256 _;
  bitand_value = λ a b g h. value-limbs_small _ (bit_and-lt 256 (value a) (value b) (value-lt b h));
  bitor_fits = λ a b g h. limbs-IsU256 _;
  bitor_value = λ a b g h.
      value-limbs_small _ (bit_or-lt 256 (value a) (value b) (value-lt a g) (value-lt b h));
  bitnot_fits = λ a h. limbs-IsU256 _;
  bitnot_value = λ a h. value-limbs_small _ (omega arith);
  shl_fits = λ a k h. limbs-IsU256 _;
  shl_value = λ a k h. value-limbs_small _ (omega arith);
  shr_fits = λ a k h. limbs-IsU256 _;
  shr_value = λ a k h. value-limbs_small _ (omega (arith, value-lt a h));
  as_u32_value = λ a h lt. narrow_lem _ lt;
  checked_add_some = λ a b r g h e. fit-some _ r e;
  checked_add_fits = λ a b g h lt. fit_fits _ lt;
  checked_mul_some = λ a b r g h e. fit-some _ r e;
  checked_mul_fits = λ a b g h lt. fit_fits _ lt;
  checked_div_some = λ a b r g h e. div_by-some _ _ r (value-lt a g) e;
  checked_div_fits = λ a b g h lt. div_by_fits _ _ lt;
}
