-- ===== src/Base/Checked.antt =====
-- Machine arithmetic. The workspace is built with `overflow-checks = true` (Cargo.toml), so an
-- operator that leaves its type panics.
use Prim.Native.Nat.{ℕ, ◌+◌, ◌-◌, ◌*◌, ◌/◌, ◌^◌, ◌≤◌, ◌<◌}
use mathlib.Core.Path.{◌≡◌}
use native.Mathlib.Omega.{arith}
use solana_crosschain_protoc.Base.Tests.{ltb, leb, ◌==◌, if◌then◌else◌}
use solana_crosschain_protoc.Base.Results.{Result, ok, err, panicked, arithmetic_overflow}

-- `a + b` on u64.
unfoldable pub add64 : ℕ → ℕ → Result ℕ
add64 a b = if ltb (a + b) (2 ^ 64) then ok (a + b) else err panicked

-- `a - b` on an unsigned type.
unfoldable pub sub64 : ℕ → ℕ → Result ℕ
sub64 a b = if leb b a then ok (a - b) else err panicked

-- `a * b` on u64.
unfoldable pub mul64 : ℕ → ℕ → Result ℕ
mul64 a b = if ltb (a * b) (2 ^ 64) then ok (a * b) else err panicked

-- `a / b`.
unfoldable pub div64 : ℕ → ℕ → Result ℕ
div64 a b = if b == 0 then err panicked else ok (a / b)

-- `a.checked_add(b).ok_or(ProgramError::ArithmeticOverflow)` on u32.
unfoldable pub checked_add32 : ℕ → ℕ → Result ℕ
checked_add32 a b = if ltb (a + b) (2 ^ 32) then ok (a + b) else err arithmetic_overflow

pub add64_lem : (a b : ℕ) → a + b < 2 ^ 64 → add64 a b ≡ ok (a + b)
unfolding add64
add64_lem a b h = ground arith

pub sub64_lem : (a b : ℕ) → b ≤ a → sub64 a b ≡ ok (a - b)
unfolding sub64
sub64_lem a b h = ground arith

pub mul64_lem : (a b : ℕ) → a * b < 2 ^ 64 → mul64 a b ≡ ok (a * b)
unfolding mul64
mul64_lem a b h = ground arith

pub div64_lem : (a b : ℕ) → 0 < b → div64 a b ≡ ok (a / b)
unfolding div64
div64_lem a b h = ground arith

pub checked_add32_lem : (a b : ℕ) → a + b < 2 ^ 32 → checked_add32 a b ≡ ok (a + b)
unfolding checked_add32
checked_add32_lem a b h = ground arith

pub mul64_overflow : (a b : ℕ) → 2 ^ 64 ≤ a * b → mul64 a b ≡ err panicked
unfolding mul64
mul64_overflow a b h = ground arith

-- What a success says.
pub add64_eq : (a b : ℕ) {c : ℕ} → add64 a b ≡ ok c → (c ≡ a + b) × (c < 2 ^ 64)
unfolding add64
add64_eq a b h = ground arith

pub sub64_eq : (a b : ℕ) {c : ℕ} → sub64 a b ≡ ok c → (c ≡ a - b) × (b ≤ a)
unfolding sub64
sub64_eq a b h = ground arith

pub mul64_eq : (a b : ℕ) {c : ℕ} → mul64 a b ≡ ok c → (c ≡ a * b) × (c < 2 ^ 64)
unfolding mul64
mul64_eq a b h = ground arith

pub div64_eq : (a b : ℕ) {c : ℕ} → div64 a b ≡ ok c → (c ≡ a / b) × (0 < b)
unfolding div64
div64_eq a b h = ground arith

pub checked_add32_eq : (a b : ℕ) {c : ℕ} → checked_add32 a b ≡ ok c → (c ≡ a + b) × (c < 2 ^ 32)
unfolding checked_add32
checked_add32_eq a b h = ground arith
