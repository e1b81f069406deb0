-- ===== src/Common/Escrow/Effects.antt =====
-- What the transfers do to the ledger, where they succeed.
use solana_crosschain_protoc.Base.{
  ok-injective, ℕ, ◌+◌, ◌≡◌, ◌≢◌, ◌∙◌, refl, sym, ap, subst, inl, inr, Bool, Bool-cases, ==→eq,
  true, false, Option, none, some, ok, >>=-eq-ok, arith, ◌==◌,
}
use solana_crosschain_protoc.Ledger.{TokenAccount, Ledger, balance, balance_of, fee_of, fee_of-le}
use solana_crosschain_protoc.Platform.{Platform}
use solana_crosschain_protoc.Platform.Laws.{Keeps, Moves, Pays, PlatformLaws}
use solana_crosschain_protoc.Platform.Accounts.{MintInfo, TokenInfo}
use solana_crosschain_protoc.Common.Escrow.{
  native_transfer, token_transfer, Seeds, uni_transfer, withdraw_and_close_token_ata,
  process_payout,
}

pub Keeps-refl : (l : Ledger) → Keeps l l
Keeps-refl l = record { accounts_kept = λ k. refl; mints_kept = λ k. refl; clock_kept = refl }

pub Keeps-trans : {l m n : Ledger} → Keeps l m → Keeps m n → Keeps l n
Keeps-trans g h = record {
  accounts_kept = λ k. h.accounts_kept k ∙ g.accounts_kept k;
  mints_kept = λ k. h.mints_kept k ∙ g.mints_kept k;
  clock_kept = h.clock_kept ∙ g.clock_kept;
}

-- The tokens of `ata` are at `to`, less the fee, and `ata` is gone; who gets the rent is `rent`.
pub record Releases (ata mint to rent amount : ℕ) (l l' : Ledger) : Type 0 where
  pub gone : l'.tokens ata ≡ none
  pub credited : balance l' to + fee_of l mint amount ≡ balance l to + amount
  pub others_kept : (k : ℕ) → k ≢ ata → k ≢ to → l'.tokens k ≡ l.tokens k
  pub lamports_kept : (k : ℕ) → k ≢ ata → k ≢ to → k ≢ rent → l'.lamports k ≡ l.lamports k
  pub keeps : Keeps l l'

-- The lamports of `ata` are at `escrow` but for `amount`, which the recipient has.
pub record Unwraps (ata escrow recipient amount : ℕ) (l l' : Ledger) : Type 0 where
  pub gone : l'.tokens ata ≡ none
  pub others_kept : (k : ℕ) → k ≢ ata → l'.tokens k ≡ l.tokens k
  pub recipient_paid : l'.lamports recipient ≡ l.lamports recipient + amount
  pub escrow_left : l'.lamports escrow + amount ≡ l.lamports escrow + l.lamports ata
  pub lamports_kept : (k : ℕ) → k ≢ ata → k ≢ escrow → k ≢ recipient → l'.lamports k ≡ l.lamports k
  pub keeps : Keeps l l'

module _ (p : Platform) (laws : PlatformLaws p) where
  -- A transfer of no lamports makes no call either.
  pub native_transfer-Pays :
      (from to amount program : ℕ) (seeds : Option Seeds) (l l' : Ledger)
      → uni_transfer p (native_transfer from to amount program) seeds l ≡ ok l'
      → Pays from to amount l l'
  unfolding uni_transfer
  native_transfer-Pays from to amount program seeds l l' h = elim (Bool-cases (amount == 0)) [
    | inl nothing ↦
        let zero_amount = ==→eq amount 0 nothing in
        subst (λ m. Pays from to amount l m)
          (let same : l ≡ l' = ok-injective (rw nothing at h) in same)
          (record {
            covered = omega arith;
            from_debited = λ d. omega arith;
            to_credited = λ d. omega arith;
            lamports_kept = λ k d d'. refl;
            tokens_kept = λ k. refl;
            keeps = Keeps-refl l;
          })
    | inr some_moved ↦ laws.system_transfer_lem from to amount seeds l l' (rw some_moved at h)
  ]

  -- A transfer of nothing makes no call, and moves nothing as well.
  pub token_transfer-Moves :
      (from authority to : ℕ) (mint : MintInfo) (amount program : ℕ) (seeds : Option Seeds)
      (l l' : Ledger)
      → uni_transfer p (token_transfer from authority to mint amount program) seeds l ≡ ok l'
      → Moves from mint.key to amount l l'
  unfolding uni_transfer
  token_transfer-Moves from authority to mint amount program seeds l l' h =
      elim (Bool-cases (amount == 0)) [
        | inl zero_amount ↦
            let same : l ≡ l' = ok-injective (rw zero_amount at h) in
            subst (λ m. Moves from mint.key to amount l m) same
              (nothing (==→eq amount 0 zero_amount))
        | inr more ↦
            laws.transfer_checked_lem program from mint.key to authority amount mint.decimals seeds
              l l' (rw more at h)
      ]
    where
      nothing : amount ≡ 0 → Moves from mint.key to amount l l
      nothing e = record {
        covered = omega arith;
        from_debited = λ d. omega arith;
        to_credited = λ d. omega (arith, fee_of-le l mint.key amount);
        others_kept = λ k d d'. refl;
        lamports_kept = λ k d d'. refl;
        keeps = Keeps-refl l;
      }

  pub withdraw_and_close-Releases :
      (ata : TokenInfo) (authority to : ℕ) (mint : MintInfo) (program rent : ℕ) (seeds : Seeds)
      (l l' : Ledger)
      → ata.key ≢ to
      → withdraw_and_close_token_ata p ata authority to mint program rent seeds l ≡ ok l'
      → Releases ata.key mint.key to rent ata.amount l l'
  unfolding withdraw_and_close_token_ata
  withdraw_and_close-Releases ata authority to mint program rent seeds l l' d h =
      let (m, e, k) =
        >>=-eq-ok
          (uni_transfer p (token_transfer ata.key authority to mint ata.amount program) (some seeds)
            l)
          _ h in
      let mv =
        token_transfer-Moves ata.key authority to mint ata.amount program (some seeds) l m e in
      let cl = laws.close_account_lem program ata.key rent authority (some seeds) m l' k in
      record {
        gone = cl.gone;
        credited =
            ap (λ (x : Option TokenAccount). balance_of x + fee_of l mint.key ata.amount)
              (cl.others_kept to (λ e. d (sym e)))
            ∙ mv.to_credited d;
        others_kept = λ j a b. cl.others_kept j a ∙ mv.others_kept j a b;
        lamports_kept = λ j a b c. cl.lamports_kept j a c ∙ mv.lamports_kept j a b;
        keeps = Keeps-trans mv.keeps cl.keeps;
      }

  -- The payout of tokens.
  pub payout_tokens :
      (mint : MintInfo) (amount escrow : ℕ) (ata : TokenInfo) (recipient : ℕ)
      (recipient_ata : Option TokenInfo) (rent : ℕ) (seeds : Seeds) (program : ℕ) (l l' : Ledger)
      → process_payout p mint false amount escrow ata recipient recipient_ata rent seeds program l
        ≡ ok l'
      → (to : TokenInfo) × (recipient_ata ≡ some to)
        × (ata.key ≢ to.key → Releases ata.key mint.key to.key rent ata.amount l l')
  unfolding process_payout
  payout_tokens mint amount escrow ata recipient none rent seeds program l l' h = cc
  payout_tokens mint amount escrow ata recipient (some to) rent seeds program l l' h = (
    to,
    refl,
    λ d. withdraw_and_close-Releases ata escrow to.key mint program rent seeds l l' d h,
  )

  -- The payout of lamports, through the escrow's own.
  pub payout_lamports :
      (mint : MintInfo) (amount escrow : ℕ) (ata : TokenInfo) (recipient : ℕ)
      (recipient_ata : Option TokenInfo) (rent : ℕ) (seeds : Seeds) (program : ℕ) (l l' : Ledger)
      → process_payout p mint true amount escrow ata recipient recipient_ata rent seeds program l
        ≡ ok l'
      → ata.key ≢ escrow
      → recipient ≢ escrow
      → recipient ≢ ata.key
      → Unwraps ata.key escrow recipient amount l l'
  unfolding process_payout
  payout_lamports mint amount escrow ata recipient recipient_ata rent seeds program l l' h d d'
        d'' =
      let (m, e, k) =
        >>=-eq-ok (p.close_account program ata.key escrow escrow (some seeds) l) _ h in
      let (n, e', k') = >>=-eq-ok (p.sub_lamports escrow amount m) _ k in
      let cl = laws.close_account_lem program ata.key escrow escrow (some seeds) l m e in
      let (enough, sb) = laws.sub_lamports_lem escrow amount m n e' in
      let ad = laws.add_lamports_lem recipient amount n l' k' in
      record {
        gone = ad.tokens_kept ata.key ∙ sb.tokens_kept ata.key ∙ cl.gone;
        others_kept = λ j x. ad.tokens_kept j ∙ sb.tokens_kept j ∙ cl.others_kept j x;
        recipient_paid =
            omega
              (arith, ad.set_to, sb.lamports_kept recipient d', cl.lamports_kept recipient d'' d');
        escrow_left =
            omega (arith, ad.lamports_kept escrow (λ x. d' (sym x)), sb.set_to, enough, cl.paid d);
        lamports_kept =
            λ j x y z. ad.lamports_kept j z ∙ sb.lamports_kept j y ∙ cl.lamports_kept j x y;
        keeps = Keeps-trans cl.keeps (Keeps-trans sb.keeps ad.keeps);
      }

  -- Either payout closes the token account, and keeps what no call of another program touches.
  pub payout_closes :
      (mint : MintInfo) (native : Bool) (amount escrow : ℕ) (ata : TokenInfo) (recipient : ℕ)
      (recipient_ata : Option TokenInfo) (rent : ℕ) (seeds : Seeds) (program : ℕ) (l l' : Ledger)
      → process_payout p mint native amount escrow ata recipient recipient_ata rent seeds program l
        ≡ ok l'
      → Keeps l l' × (l'.tokens ata.key ≡ none)
  unfolding process_payout withdraw_and_close_token_ata
  payout_closes mint true amount escrow ata recipient recipient_ata rent seeds program l l' h =
      let (m, e, k) =
        >>=-eq-ok (p.close_account program ata.key escrow escrow (some seeds) l) _ h in
      let (n, e', k') = >>=-eq-ok (p.sub_lamports escrow amount m) _ k in
      let cl = laws.close_account_lem program ata.key escrow escrow (some seeds) l m e in
      let sb = (laws.sub_lamports_lem escrow amount m n e').1 in
      let ad = laws.add_lamports_lem recipient amount n l' k' in
      (
        Keeps-trans cl.keeps (Keeps-trans sb.keeps ad.keeps),
        ad.tokens_kept ata.key ∙ sb.tokens_kept ata.key ∙ cl.gone,
      )
  payout_closes mint false amount escrow ata recipient none rent seeds program l l' h = cc
  payout_closes mint false amount escrow ata recipient (some to) rent seeds program l l' h =
      let (m, e, k) =
        >>=-eq-ok
          (uni_transfer p (token_transfer ata.key escrow to.key mint ata.amount program)
            (some seeds) l)
          _ h in
      let mv =
        token_transfer-Moves ata.key escrow to.key mint ata.amount program (some seeds) l m e in
      let cl = laws.close_account_lem program ata.key rent escrow (some seeds) m l' k in
      (Keeps-trans mv.keeps cl.keeps, cl.gone)
