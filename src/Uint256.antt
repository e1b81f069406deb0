-- ===== src/Uint256.antt =====
-- `primitive_types::U256`, a third-party type: the four u64 limbs that the programs write and read
-- (`U256(limbs)`, `.0`), lowest first, and its operators as parameters with the laws that its
-- documentation gives. `Reference` is an instance, which shows that the laws can be met.
pub mod Reference
use solana_crosschain_protoc.Base.{
  ℕ, ◌+◌, ◌-◌, ◌*◌, ◌/◌, ◌%◌, ◌^◌, ◌<◌, ◌≡◌, ◌≢◌, Option, none, some, arith,
}
use Prim.Native.Nat.{bit_and, bit_or}

-- `[u64; 4]`
pub record U256 : Type 0 where
  pub limb0 : ℕ
  pub limb1 : ℕ
  pub limb2 : ℕ
  pub limb3 : ℕ

pub record IsU256 (a : U256) : Type 0 where
  pub fits0 : a.limb0 < 2 ^ 64
  pub fits1 : a.limb1 < 2 ^ 64
  pub fits2 : a.limb2 < 2 ^ 64
  pub fits3 : a.limb3 < 2 ^ 64

unfoldable pub value : U256 → ℕ
value a = a.limb0 + 2 ^ 64 * a.limb1 + 2 ^ 128 * a.limb2 + 2 ^ 192 * a.limb3

pub value-lt : (a : U256) → IsU256 a → value a < 2 ^ 256
unfolding value
value-lt a h = omega arith

-- `as_u32` panics on a value that does not fit, which is `none` here.
pub record U256Ops : Type 0 where
  pub from_u64 : ℕ → U256
  pub bitand : U256 → U256 → U256
  pub bitor : U256 → U256 → U256
  pub bitnot : U256 → U256
  pub shl : U256 → ℕ → U256
  pub shr : U256 → ℕ → U256
  pub as_u32 : U256 → Option ℕ
  pub checked_add : U256 → U256 → Option U256
  pub checked_mul : U256 → U256 → Option U256
  pub checked_div : U256 → U256 → Option U256

-- What the documentation says of the operators, on well-formed arguments.
pub record U256Laws (u : U256Ops) : Type 0 where
  pub from_u64_fits : (n : ℕ) → n < 2 ^ 64 → IsU256 (u.from_u64 n)
  pub from_u64_value : (n : ℕ) → n < 2 ^ 64 → value (u.from_u64 n) ≡ n
  pub bitand_fits : (a b : U256) → IsU256 a → IsU256 b → IsU256 (u.bitand a b)
  pub bitand_value :
      (a b : U256) → IsU256 a → IsU256 b → value (u.bitand a b) ≡ bit_and (value a) (value b)
  pub bitor_fits : (a b : U256) → IsU256 a → IsU256 b → IsU256 (u.bitor a b)
  pub bitor_value :
      (a b : U256) → IsU256 a → IsU256 b → value (u.bitor a b) ≡ bit_or (value a) (value b)
  pub bitnot_fits : (a : U256) → IsU256 a → IsU256 (u.bitnot a)
  pub bitnot_value : (a : U256) → IsU256 a → value (u.bitnot a) ≡ 2 ^ 256 - 1 - value a
  pub shl_fits : (a : U256) (k : ℕ) → IsU256 a → IsU256 (u.shl a k)
  pub shl_value : (a : U256) (k : ℕ) → IsU256 a → value (u.shl a k) ≡ value a * 2 ^ k % 2 ^ 256
  pub shr_fits : (a : U256) (k : ℕ) → IsU256 a → IsU256 (u.shr a k)
  pub shr_value : (a : U256) (k : ℕ) → IsU256 a → value (u.shr a k) ≡ value a / 2 ^ k
  pub as_u32_value : (a : U256) → IsU256 a → value a < 2 ^ 32 → u.as_u32 a ≡ some (value a)
  pub checked_add_some :
      (a b r : U256)
      → IsU256 a
      → IsU256 b
      → u.checked_add a b ≡ some r
      → IsU256 r × (value r ≡ value a + value b)
  pub checked_add_fits :
      (a b : U256) → IsU256 a → IsU256 b → value a + value b < 2 ^ 256 → u.checked_add a b ≢ none
  pub checked_mul_some :
      (a b r : U256)
      → IsU256 a
      → IsU256 b
      → u.checked_mul a b ≡ some r
      → IsU256 r × (value r ≡ value a * value b)
  pub checked_mul_fits :
      (a b : U256) → IsU256 a → IsU256 b → value a * value b < 2 ^ 256 → u.checked_mul a b ≢ none
  pub checked_div_some :
      (a b r : U256)
      → IsU256 a
      → IsU256 b
      → u.checked_div a b ≡ some r
      → IsU256 r × (value r ≡ value a / value b)
  pub checked_div_fits : (a b : U256) → IsU256 a → IsU256 b → 0 < value b → u.checked_div a b ≢ none
