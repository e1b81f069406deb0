-- ===== src/Dst/Loads.antt =====
-- What the accounts of the instructions are, where their checks pass.
use solana_crosschain_protoc.Base.{
  ℕ, ◌≡◌, ap, subst, Bool, true, not, Option, none, some, ok, >>=-eq-ok, check-eq-ok, require-eq-ok,
  ok-injective, ==→eq, ◌==◌, arith,
}
use solana_crosschain_protoc.Ledger.{Ledger, escrow_dst_data}
use solana_crosschain_protoc.Platform.{Platform}
use solana_crosschain_protoc.Platform.Laws.{Keeps, PlatformLaws}
use solana_crosschain_protoc.Platform.Accounts.{
  TokenInfo, load_mint, load_associated, load_optional, init_associated, check_seeds,
}
use solana_crosschain_protoc.Platform.Accounts.Facts.{IsAssociated, load_associated-IsAssociated}
use solana_crosschain_protoc.Common.Escrow.Effects.{Keeps-refl}
use solana_crosschain_protoc.Src.Accounts.{escrow_seeds}
use solana_crosschain_protoc.Src.CreateEscrow.Loads.{init_associated-IsReady}
use solana_crosschain_protoc.Dst.State.{EscrowDst}
use solana_crosschain_protoc.Dst.Accounts.{
  dst_id, Withdraw, Withdrawal, Cancel, Cancellation, load_escrow_dst, init_optional,
  load_withdrawal, load_cancel,
}

pub load_escrow_dst-eq :
    (l : Ledger) (k : ℕ) {e : EscrowDst}
    → load_escrow_dst l k ≡ ok e
    → l.accounts k ≡ some (escrow_dst_data e)
unfolding load_escrow_dst
load_escrow_dst-eq l k h = ground arith

module _ (p : Platform) (laws : PlatformLaws p) where
  pub init_optional-Keeps :
      (l : Ledger) (payer : ℕ) (k : Option ℕ) (mint authority program : ℕ) {t : Option TokenInfo}
      {l' : Ledger}
      → init_optional p l payer k mint authority program ≡ ok (t, l')
      → Keeps l l'
  unfolding init_optional
  init_optional-Keeps l payer none mint authority program h =
      subst (λ m. Keeps l m) (ap (λ (x : Option TokenInfo × Ledger). x.1) (ok-injective h))
        (Keeps-refl l)
  init_optional-Keeps l payer (some k) mint authority program h =
      let ((t, m), e, q) = >>=-eq-ok (init_associated p l payer k mint authority program) _ h in
      subst (λ m. Keeps l m) (ap (λ (x : Option TokenInfo × Ledger). x.1) (ok-injective q))
        (init_associated-IsReady p laws l payer k mint authority program e).keeps

  pub record IsWithdrawal (a : Withdraw) (l l₀ : Ledger) (c : Withdrawal) : Type 0 where
    pub stored : l.accounts a.escrow ≡ some (escrow_dst_data c.escrow)
    pub creator_is : a.creator ≡ c.escrow.creator
    pub recipient_is : a.recipient ≡ c.escrow.recipient
    pub escrow_ata_is : IsAssociated p l a.escrow_ata a.mint a.escrow a.token_program c.escrow_ata
    pub keeps : Keeps l l₀

  pub load_withdrawal-IsWithdrawal :
      (signed : ℕ → Bool) (a : Withdraw) (payer : ℕ) (l : Ledger) {r : Withdrawal × Ledger}
      → load_withdrawal p signed a payer l ≡ ok r
      → IsWithdrawal a l r.1 r.0
  unfolding load_withdrawal
  load_withdrawal-IsWithdrawal signed a payer l h =
      let (_, _, h₁) = >>=-eq-ok (load_mint l a.mint) _ h in
      let (e, stored, h₂) = >>=-eq-ok (load_escrow_dst l a.escrow) _ h₁ in
      let (ea, ea_ok, h₃) =
        >>=-eq-ok (load_associated p l a.escrow_ata a.mint a.escrow a.token_program) _ h₂ in
      let ((t, m), init_ok, h₄) =
        >>=-eq-ok (init_optional p l payer a.recipient_ata a.mint a.recipient a.token_program) _
          h₃ in
      let (creator_ok, h₅) = require-eq-ok (a.creator == e.creator) _ _ h₄ in
      let (recipient_ok, h₆) = require-eq-ok (a.recipient == e.recipient) _ _ h₅ in
      let (_, h₇) = require-eq-ok (a.mint == e.token) _ _ h₆ in
      let (_, h₈) = check-eq-ok (not (a.escrow == a.creator)) _ _ h₇ in
      let (_, _, q) =
        >>=-eq-ok
          (check_seeds p a.escrow (escrow_seeds e.order_hash e.hashlock e.creator e.amount) e.bump
            dst_id)
          _ h₈ in
      subst (λ (x : Withdrawal × Ledger). IsWithdrawal a l x.1 x.0) (ok-injective q)
        (record {
          stored = load_escrow_dst-eq l a.escrow stored;
          creator_is = ==→eq a.creator e.creator creator_ok;
          recipient_is = ==→eq a.recipient e.recipient recipient_ok;
          escrow_ata_is =
              load_associated-IsAssociated p l a.escrow_ata a.mint a.escrow a.token_program ea_ok;
          keeps =
              init_optional-Keeps l payer a.recipient_ata a.mint a.recipient a.token_program
                init_ok;
        })

  pub record IsCancellation (signed : ℕ → Bool) (a : Cancel) (l : Ledger) (c : Cancellation)
      : Type 0 where
    pub signs : signed a.creator ≡ true
    pub stored : l.accounts a.escrow ≡ some (escrow_dst_data c.escrow)
    pub creator_is : a.creator ≡ c.escrow.creator
    pub escrow_ata_is : IsAssociated p l a.escrow_ata a.mint a.escrow a.token_program c.escrow_ata
    pub creator_ata_is :
        load_optional p l a.creator_ata a.mint a.creator a.token_program ≡ ok c.creator_ata

  pub load_cancel-IsCancellation :
      (signed : ℕ → Bool) (a : Cancel) (l : Ledger) {c : Cancellation}
      → load_cancel p signed a l ≡ ok c
      → IsCancellation signed a l c
  unfolding load_cancel
  load_cancel-IsCancellation signed a l h =
      let (s, h₁) = check-eq-ok (signed a.creator) _ _ h in
      let (_, _, h₂) = >>=-eq-ok (load_mint l a.mint) _ h₁ in
      let (e, stored, h₃) = >>=-eq-ok (load_escrow_dst l a.escrow) _ h₂ in
      let (creator_ok, h₄) = require-eq-ok (a.creator == e.creator) _ _ h₃ in
      let (_, h₅) = require-eq-ok (a.mint == e.token) _ _ h₄ in
      let (_, h₆) = check-eq-ok (not (a.escrow == a.creator)) _ _ h₅ in
      let (_, _, h₇) =
        >>=-eq-ok
          (check_seeds p a.escrow (escrow_seeds e.order_hash e.hashlock e.creator e.amount) e.bump
            dst_id)
          _ h₆ in
      let (ea, ea_ok, h₈) =
        >>=-eq-ok (load_associated p l a.escrow_ata a.mint a.escrow a.token_program) _ h₇ in
      let (ca, ca_ok, q) =
        >>=-eq-ok (load_optional p l a.creator_ata a.mint a.creator a.token_program) _ h₈ in
      subst (IsCancellation signed a l) (ok-injective q) (record {
        signs = s;
        stored = load_escrow_dst-eq l a.escrow stored;
        creator_is = ==→eq a.creator e.creator creator_ok;
        escrow_ata_is =
            load_associated-IsAssociated p l a.escrow_ata a.mint a.escrow a.token_program ea_ok;
        creator_ata_is = ca_ok;
      })
