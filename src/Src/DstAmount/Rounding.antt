-- ===== src/Src/DstAmount/Rounding.antt =====
-- The destination amount of a fill: its value, and that rounding never costs the maker.
use solana_crosschain_protoc.Base.{
  ℕ, List, [], ◌∷◌, ◌+◌, ◌-◌, ◌*◌, ◌/◌, ◌^◌, ◌<◌, ◌≤◌, ◌≡◌, ap, subst, ◌∙◌, some, ok, expect,
  >>=-eq-ok, expect-eq-ok, add64, sub64, sub64_eq, add64_eq, arith,
}
use mathlib.Core.Path.{ap₂}
use native.Mathlib.Nat.{mul-add}
use solana_crosschain_protoc.Base.Div.{
  ceil_div, ceil_div_iff, ceil_div-mul_self, ceil_div-add, ceil_div_mono,
}
use solana_crosschain_protoc.Uint256.{U256, IsU256, value, U256Ops, U256Laws}
use solana_crosschain_protoc.Common.Constants.{base_1e7}
use solana_crosschain_protoc.Src.Auction.{AuctionData, calculate_rate_bump}
use solana_crosschain_protoc.Src.DstAmount.{get_dst_amount, fill_share, escrow_dst_amount}

-- Fills of one order: when each was made, how much it took, and what was computed.
pub record Fill : Type 0 where
  pub now : ℕ
  pub amount : ℕ
  pub result : U256

abbrev pub amounts : List Fill → ℕ
amounts [] = 0
amounts (f ∷ fs) = f.amount + amounts fs

abbrev pub results : List Fill → ℕ
results [] = 0
results (f ∷ fs) = value f.result + results fs

module _ (u : U256Ops) (laws : U256Laws u) where
  -- A product, an addend and a quotient that all succeed.
  scaled_up :
      (a : U256) (m k : ℕ) {p s r : U256}
      → IsU256 a
      → m < 2 ^ 64
      → 0 < k
      → k < 2 ^ 64
      → u.checked_mul a (u.from_u64 m) ≡ some p
      → u.checked_add p (u.from_u64 (k - 1)) ≡ some s
      → u.checked_div s (u.from_u64 k) ≡ some r
      → IsU256 r × (value r ≡ ceil_div (value a * m) k)
  scaled_up a m k {p} {s} {r} h hm hk lk e₁ e₂ e₃ =
      let m_fits = laws.from_u64_fits m hm in
      let one_less : k - 1 < 2 ^ 64 = omega arith in
      let (p_fits, pv) = laws.checked_mul_some a (u.from_u64 m) p h m_fits e₁ in
      let (s_fits, sv) =
        laws.checked_add_some p (u.from_u64 (k - 1)) s p_fits (laws.from_u64_fits (k - 1) one_less)
          e₂ in
      let (r_fits, rv) =
        laws.checked_div_some s (u.from_u64 k) r s_fits (laws.from_u64_fits k lk) e₃ in
      let product = pv ∙ ap (λ (x : ℕ). value a * x) (laws.from_u64_value m hm) in
      let raised = sv ∙ ap₂ (λ (x y : ℕ). x + y) product (laws.from_u64_value (k - 1) one_less) in
      (r_fits, rv ∙ ap₂ (λ (x y : ℕ). x / y) raised (laws.from_u64_value k lk))

  -- A share that is computed is the exact share, rounded up.
  fill_share-value :
      (dst : U256) (amount total : ℕ) {share : U256}
      → IsU256 dst
      → amount < 2 ^ 64
      → 0 < total
      → total < 2 ^ 64
      → fill_share u dst amount total ≡ ok share
      → IsU256 share × (value share ≡ ceil_div (value dst * amount) total)
  unfolding fill_share sub64
  fill_share-value dst amount total h ha ht lt e =
      let (p, e₁, k₁) = >>=-eq-ok (expect (u.checked_mul dst (u.from_u64 amount))) _ e in
      let (d, e₂, k₂) = >>=-eq-ok (sub64 total 1) _ k₁ in
      let (s, e₃, k₃) = >>=-eq-ok (expect (u.checked_add p (u.from_u64 d))) _ k₂ in
      let one_less = (sub64_eq total 1 e₂).0 in
      scaled_up dst amount total h ha ht lt (expect-eq-ok _ e₁)
        (subst (λ x. u.checked_add p (u.from_u64 x) ≡ some s) one_less (expect-eq-ok _ e₃))
        (expect-eq-ok _ k₃)

  get_dst_amount-value :
      (now : ℕ) (dst : U256) (auction : AuctionData) {raised : U256}
      → IsU256 dst
      → get_dst_amount u now dst auction ≡ ok raised
      → (bump : ℕ) × (calculate_rate_bump now auction ≡ ok bump)
        × (value raised ≡ ceil_div (value dst * (base_1e7 + bump)) base_1e7)
  unfolding get_dst_amount
  get_dst_amount-value now dst auction h e =
      let (bump, e₀, k₀) = >>=-eq-ok (calculate_rate_bump now auction) _ e in
      let (m, e₁, k₁) = >>=-eq-ok (add64 base_1e7 bump) _ k₀ in
      let (p, e₂, k₂) = >>=-eq-ok (expect (u.checked_mul dst (u.from_u64 m))) _ k₁ in
      let (s, e₃, k₃) = >>=-eq-ok (expect (u.checked_add p (u.from_u64 (base_1e7 - 1)))) _ k₂ in
      let (m_eq, m_lt) = add64_eq base_1e7 bump e₁ in
      let result =
        scaled_up dst m base_1e7 h m_lt (omega arith) (omega arith) (expect-eq-ok _ e₂)
          (expect-eq-ok _ e₃) (expect-eq-ok _ k₃) in
      (bump, e₀, result.1 ∙ ap (λ (x : ℕ). ceil_div (value dst * x) base_1e7) m_eq)

  -- The destination amount that a fill of `amount` out of `total` is computed to is the exact
  -- share rounded up to a whole unit, times `1 + bump / 10^7`, rounded up again, with the bump
  -- that the auction gives at that time.
  pub escrow_dst_amount-value :
      (now : ℕ) (dst : U256) (amount total : ℕ) (auction : AuctionData) {result : U256}
      → IsU256 dst
      → amount < 2 ^ 64
      → 0 < total
      → total < 2 ^ 64
      → escrow_dst_amount u now dst amount total auction ≡ ok result
      → (bump : ℕ) × (calculate_rate_bump now auction ≡ ok bump)
        × (value result
            ≡ ceil_div (ceil_div (value dst * amount) total * (base_1e7 + bump)) base_1e7)
  unfolding escrow_dst_amount
  escrow_dst_amount-value now dst amount total auction h ha ht lt e =
      let (share, e₁, k) = >>=-eq-ok (fill_share u dst amount total) _ e in
      let (fits, v) = fill_share-value dst amount total h ha ht lt e₁ in
      let (bump, b, w) = get_dst_amount-value now share auction fits k in
      (bump, b, w ∙ ap (λ (x : ℕ). ceil_div (x * (base_1e7 + bump)) base_1e7) v)

  -- The bump only adds.
  share-le :
      (now : ℕ) (dst : U256) (amount total : ℕ) (auction : AuctionData) {result : U256}
      → IsU256 dst
      → amount < 2 ^ 64
      → 0 < total
      → total < 2 ^ 64
      → escrow_dst_amount u now dst amount total auction ≡ ok result
      → ceil_div (value dst * amount) total ≤ value result
  share-le now dst amount total auction h ha ht lt e =
      let (bump, b, w) = escrow_dst_amount-value now dst amount total auction h ha ht lt e in
      let share = ceil_div (value dst * amount) total in
      omega (
        arith,
        w,
        ceil_div_mono (share * base_1e7) (share * (base_1e7 + bump)) base_1e7 (omega arith)
            (omega arith),
        ceil_div-mul_self share base_1e7 (omega arith),
      )

  abbrev pub AreFills : U256 → ℕ → AuctionData → List Fill → Type 0
  AreFills dst total auction [] = Unit
  AreFills dst total auction (f ∷ fs) =
      (f.amount < 2 ^ 64)
      × (escrow_dst_amount u f.now dst f.amount total auction ≡ ok f.result)
      × AreFills dst total auction fs

  part_covered :
      (dst : U256) (total : ℕ) (auction : AuctionData) (fills : List Fill)
      → IsU256 dst
      → 0 < total
      → total < 2 ^ 64
      → AreFills dst total auction fills
      → ceil_div (value dst * amounts fills) total ≤ results fills
  part_covered dst total auction [] h ht lt v =
      (ceil_div_iff (value dst * 0) total 0 ht).1 (omega arith)
  part_covered dst total auction (f ∷ fs) h ht lt v = omega (
    arith,
    ceil_div-add (value dst * f.amount) (value dst * amounts fs) total ht,
    ap (λ (x : ℕ). ceil_div x total) (mul-add (value dst) f.amount (amounts fs)),
    share-le f.now dst f.amount total auction h v.0 ht lt v.1,
    part_covered dst total auction fs h ht lt v.2,
  )

  -- Fills that together take the whole order, at any times and in any sizes, are computed to at
  -- least the whole destination amount that the maker asked for.
  pub fills_cover_dst_amount :
      (dst : U256) (total : ℕ) (auction : AuctionData) (fills : List Fill)
      → IsU256 dst
      → 0 < total
      → total < 2 ^ 64
      → AreFills dst total auction fills
      → amounts fills ≡ total
      → value dst ≤ results fills
  fills_cover_dst_amount dst total auction fills h ht lt v whole = omega (
    arith,
    part_covered dst total auction fills h ht lt v,
    ap (λ (x : ℕ). ceil_div (value dst * x) total) whole,
    ceil_div-mul_self (value dst) total ht,
  )
