-- ===== src/Base/Bytes.antt =====
-- Big- and little-endian bytes of an unsigned number. A `[u8; 32]` (a hash, a key) is modelled by
-- the number below 2^256 that it spells, highest byte first, so that the order of arrays is the
-- order of numbers.
use Prim.Native.Nat.{ℕ, zero, suc, ◌+◌, ◌*◌, ◌/◌, ◌%◌, ◌^◌, ◌≤◌, ◌<◌}
use mathlib.Core.Path.{◌≡◌, refl, ap, ◌∙◌}
use mathlib.Core.List.{List, [], ◌∷◌, ◌++◌}
use native.Mathlib.Omega.{arith}
use native.Mathlib.Nat.{
  pow-suc, one-le-pow, mod-lt, mod-eq_of_lt, mul-add-mod_self_right, mul-le-mul_right, div-add-mod',
}

abbrev pub length {ℓ} : {A : Type ℓ} → List A → ℕ
length [] = 0
length (x ∷ xs) = suc (length xs)

pub length-append {ℓ} : {A : Type ℓ} (xs ys : List A) → length (xs ++ ys) ≡ length xs + length ys
length-append [] ys = omega arith
length-append (x ∷ xs) ys = omega (arith, length-append xs ys)

-- The slices that a hash reads, joined.
abbrev pub concat {ℓ} : {A : Type ℓ} → List (List A) → List A
concat [] = []
concat (xs ∷ xss) = xs ++ concat xss

-- `to_be_bytes` of a number of `w` bytes.
unfoldable pub be_bytes : ℕ → ℕ → List ℕ
be_bytes zero n = []
be_bytes (suc w) n = n / 256 ^ w % 256 ∷ be_bytes w n

-- `to_le_bytes`
unfoldable pub le_bytes : ℕ → ℕ → List ℕ
le_bytes zero n = []
le_bytes (suc w) n = n % 256 ∷ le_bytes w (n / 256)

-- The number that bytes spell after `acc`.
unfoldable pub from_be : ℕ → List ℕ → ℕ
from_be acc [] = acc
from_be acc (b ∷ bs) = from_be (acc * 256 + b) bs

pub length-be_bytes : (w n : ℕ) → length (be_bytes w n) ≡ w
unfolding be_bytes
length-be_bytes zero n = refl
length-be_bytes (suc w) n = ap suc (length-be_bytes w n)

pub length-le_bytes : (w n : ℕ) → length (le_bytes w n) ≡ w
unfolding le_bytes
length-le_bytes zero n = refl
length-le_bytes (suc w) n = ap suc (length-le_bytes w (n / 256))

pub from_be-append :
    (acc : ℕ) (xs ys : List ℕ) → from_be acc (xs ++ ys) ≡ from_be (from_be acc xs) ys
unfolding from_be
from_be-append acc [] ys = refl
from_be-append acc (x ∷ xs) ys = from_be-append (acc * 256 + x) xs ys

-- The top byte of a remainder, and the rest.
top_byte : (n p : ℕ) → 0 < p → n % (p * 256) ≡ n / p % 256 * p + n % p
top_byte n p h =
    let q : ℕ = n / p / 256 in
    let r : ℕ = n / p % 256 * p + n % p in
    let split : n ≡ q * (p * 256) + r = omega (
      arith,
      div-add-mod' n p,
      ap (λ (x : ℕ). x * p) (let e : n / p ≡ q * 256 + n / p % 256 = omega arith in e),
    ) in
    let small : r < p * 256 =
      omega
        (arith, mod-lt n h, mul-le-mul_right p (let e : n / p % 256 ≤ 255 = omega arith in e)) in
    ap (λ (x : ℕ). x % (p * 256)) split ∙ mul-add-mod_self_right q (p * 256) r ∙ mod-eq_of_lt small

from_be-be_bytes_mod : (w n acc : ℕ) → from_be acc (be_bytes w n) ≡ acc * 256 ^ w + n % 256 ^ w
unfolding from_be be_bytes
from_be-be_bytes_mod zero n acc = omega arith
from_be-be_bytes_mod (suc w) n acc =
    from_be-be_bytes_mod w n (acc * 256 + n / 256 ^ w % 256)
    ∙ omega (
      arith,
      top_byte n (256 ^ w) (one-le-pow w 256 (omega arith)),
      pow-suc 256 w,
      ap (λ (p : ℕ). n % p) (pow-suc 256 w),
      ap (λ (p : ℕ). acc * p) (pow-suc 256 w),
    )

-- Decoding gives back a number of the width, after what came before.
pub from_be-be_bytes : (w n acc : ℕ) → n < 256 ^ w → from_be acc (be_bytes w n) ≡ acc * 256 ^ w + n
from_be-be_bytes w n acc h = omega (arith, from_be-be_bytes_mod w n acc, mod-eq_of_lt h)

-- Two numbers of fixed widths can be read back from their joined bytes.
pub from_be-pair :
    (v w m n : ℕ)
    → m < 256 ^ v
    → n < 256 ^ w
    → from_be 0 (be_bytes v m ++ be_bytes w n) ≡ m * 256 ^ w + n
from_be-pair v w m n g h =
    from_be-append 0 (be_bytes v m) (be_bytes w n)
    ∙ from_be-be_bytes w n (from_be 0 (be_bytes v m)) h
    ∙ ap (λ (x : ℕ). x * 256 ^ w + n)
        (let e : from_be 0 (be_bytes v m) ≡ m = omega (arith, from_be-be_bytes v m 0 g) in e)
