-- ===== src/Base/Div.antt =====
-- Division by a variable: monotonicity, bounds, and division that rounds up.
use Prim.Native.Nat.{ℕ, suc, ◌+◌, ◌-◌, ◌*◌, ◌/◌, ◌≤◌, ◌<◌}
use mathlib.Core.Path.{◌≡◌}
use mathlib.Core.Logic.{◌↔◌}
use native.Mathlib.Omega.{arith}
use native.Mathlib.Nat.{
  div-le_of_le-mul, le-div_iff_mul-le, div-lt_iff_lt-mul, suc-mul, add-mul, div-mul-le_self,
}

pub div_mono : (a b k : ℕ) → a ≤ b → a / k ≤ b / k
div_mono a b k h = grind (arith, div-mul-le_self, le-div_iff_mul-le)

pub div-le : (a k q : ℕ) → a ≤ k * q → a / k ≤ q
div-le a k q h = div-le_of_le-mul k h

pub le-div : (a k q : ℕ) → 0 < k → q * k ≤ a → q ≤ a / k
le-div a k q p h = (le-div_iff_mul-le p).1 h

-- `(n + (k - 1)) / k`, as the programs write a division that rounds up.
abbrev pub ceil_div : ℕ → ℕ → ℕ
ceil_div n k = (n + (k - 1)) / k

-- It is the least number whose multiple covers `n`.
pub ceil_div_iff : (n k q : ℕ) → 0 < k → (ceil_div n k ≤ q) ↔ (n ≤ q * k)
ceil_div_iff n k q p = (
  λ h.
      omega
        (arith, (div-lt_iff_lt-mul {x = n + (k - 1)} {y = suc q} p).0 (omega arith), suc-mul q k),
  λ h.
      let below : (n + (k - 1)) / k < suc q =
        (div-lt_iff_lt-mul {x = n + (k - 1)} {y = suc q} p).1 (omega (arith, suc-mul q k)) in
      omega arith,
)

pub ceil_div-mul : (n k : ℕ) → 0 < k → n ≤ ceil_div n k * k
ceil_div-mul n k p = (ceil_div_iff n k (ceil_div n k) p).0 (omega arith)

-- Rounding up a whole number of parts changes nothing.
pub ceil_div-mul_self : (q k : ℕ) → 0 < k → ceil_div (q * k) k ≡ q
ceil_div-mul_self q k p = omega (
  arith,
  (ceil_div_iff (q * k) k q p).1 (omega arith),
  le-div (q * k + (k - 1)) k q p (omega arith),
)

-- Rounding up each part pays at least the whole rounded up.
pub ceil_div-add : (m n k : ℕ) → 0 < k → ceil_div (m + n) k ≤ ceil_div m k + ceil_div n k
ceil_div-add m n k p =
    (ceil_div_iff (m + n) k (ceil_div m k + ceil_div n k) p).1 (
      omega
        (arith, ceil_div-mul m k p, ceil_div-mul n k p, add-mul (ceil_div m k) (ceil_div n k) k))

pub ceil_div_mono : (m n k : ℕ) → 0 < k → m ≤ n → ceil_div m k ≤ ceil_div n k
ceil_div_mono m n k p h = div_mono (m + (k - 1)) (n + (k - 1)) k (omega arith)
