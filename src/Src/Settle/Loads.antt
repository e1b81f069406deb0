-- ===== src/Src/Settle/Loads.antt =====
-- What the accounts of the four instructions are, where their checks pass.
use solana_crosschain_protoc.Base.{
  ℕ, ◌≡◌, ◌≢◌, Bool, true, not, [], ◌∷◌, some, ok, >>=-eq-ok, check-eq-ok, require-eq-ok,
  ok-injective, subst, ==→eq, ◌==◌, arith,
}
use solana_crosschain_protoc.Ledger.{Ledger, escrow_src_data, order_data, resolver_access_data}
use solana_crosschain_protoc.Whitelist.State.{ResolverAccess}
use solana_crosschain_protoc.Whitelist.Ids.{whitelist_id}
use solana_crosschain_protoc.Base.Bytes.{be_bytes}
use solana_crosschain_protoc.Platform.{Platform}
use solana_crosschain_protoc.Platform.Accounts.{
  load_associated, load_optional, load_mint, check_seeds,
}
use solana_crosschain_protoc.Platform.Accounts.Facts.{
  load_mint-key, IsAssociated, load_associated-IsAssociated,
}
use solana_crosschain_protoc.Src.State.{Order, EscrowSrc}
use solana_crosschain_protoc.Src.Accounts.{
  load_escrow, load_order, load_access, src_id, escrow_seeds, check_resolver,
}
use solana_crosschain_protoc.Src.Accounts.Withdraw.{
  Withdraw, PublicWithdraw, Withdrawal, load_withdrawal, load_withdraw, load_public_withdraw,
}
use solana_crosschain_protoc.Src.Accounts.Cancel.{
  CancelEscrow, PublicCancelEscrow, Cancellation, load_cancellation, load_cancel_escrow,
  load_public_cancel_escrow,
}

pub load_escrow-eq :
    (l : Ledger) (k : ℕ) {e : EscrowSrc}
    → load_escrow l k ≡ ok e
    → l.accounts k ≡ some (escrow_src_data e)
unfolding load_escrow
load_escrow-eq l k h = ground arith

pub load_order-eq :
    (l : Ledger) (k : ℕ) {o : Order} → load_order l k ≡ ok o → l.accounts k ≡ some (order_data o)
unfolding load_order
load_order-eq l k h = ground arith

pub load_access-eq :
    (l : Ledger) (k : ℕ) {r : ResolverAccess}
    → load_access l k ≡ ok r
    → l.accounts k ≡ some (resolver_access_data r)
unfolding load_access
load_access-eq l k h = ground arith

module _ (p : Platform) where
  pub record IsWithdrawal (a : Withdraw) (l : Ledger) (c : Withdrawal) : Type 0 where
    pub stored : l.accounts a.escrow ≡ some (escrow_src_data c.escrow)
    pub taker_is : a.taker ≡ c.escrow.taker
    pub mint_is : a.mint ≡ c.escrow.token
    pub apart : a.escrow ≢ a.taker
    pub mint_key : c.mint.key ≡ a.mint
    pub escrow_ata_is : IsAssociated p l a.escrow_ata a.mint a.escrow a.token_program c.escrow_ata
    pub taker_ata_is : IsAssociated p l a.taker_ata a.mint a.taker a.token_program c.taker_ata

  differ : (a b : ℕ) → not (a == b) ≡ true → a ≢ b
  differ a b h = ground arith

  pub load_withdrawal-IsWithdrawal :
      (signed : ℕ → Bool) (a : Withdraw) (l : Ledger) {c : Withdrawal}
      → load_withdrawal p signed a l ≡ ok c
      → IsWithdrawal a l c
  unfolding load_withdrawal
  load_withdrawal-IsWithdrawal signed a l {c} h =
      let (mint, mint_read, h₁) = >>=-eq-ok (load_mint l a.mint) _ h in
      let (e, stored, h₂) = >>=-eq-ok (load_escrow l a.escrow) _ h₁ in
      let (taker_ok, h₃) = require-eq-ok (a.taker == e.taker) _ _ h₂ in
      let (mint_ok, h₄) = require-eq-ok (a.mint == e.token) _ _ h₃ in
      let (apart, h₅) = check-eq-ok (not (a.escrow == a.taker)) _ _ h₄ in
      let (_, _, h₆) =
        >>=-eq-ok
          (check_seeds p a.escrow (escrow_seeds e.order_hash e.hashlock e.taker e.amount) e.bump
            src_id)
          _ h₅ in
      let (ea, ea_ok, h₇) =
        >>=-eq-ok (load_associated p l a.escrow_ata a.mint a.escrow a.token_program) _ h₆ in
      let (ta, ta_ok, h₈) =
        >>=-eq-ok (load_associated p l a.taker_ata a.mint a.taker a.token_program) _ h₇ in
      subst (IsWithdrawal a l) (ok-injective h₈) (record {
        stored = load_escrow-eq l a.escrow stored;
        taker_is = ==→eq a.taker e.taker taker_ok;
        mint_is = ==→eq a.mint e.token mint_ok;
        apart = differ a.escrow a.taker apart;
        mint_key = load_mint-key l a.mint mint_read;
        escrow_ata_is =
            load_associated-IsAssociated p l a.escrow_ata a.mint a.escrow a.token_program ea_ok;
        taker_ata_is =
            load_associated-IsAssociated p l a.taker_ata a.mint a.taker a.token_program ta_ok;
      })

  -- A resolver that signed and that the whitelist program keeps an account for.
  pub record IsResolver (signed : ℕ → Bool) (program resolver access : ℕ) (l : Ledger)
      : Type 0 where
    pub signs : signed resolver ≡ true
    pub registered : ResolverAccess
    pub kept : l.accounts access ≡ some (resolver_access_data registered)
    pub derived :
        check_seeds p access
          (be_bytes 32 program ∷ be_bytes 32 resolver ∷ [])
          registered.bump
          whitelist_id
        ≡ ok tt

  pub record IsCancellation (a : CancelEscrow) (l : Ledger) (c : Cancellation) : Type 0 where
    pub stored : l.accounts a.escrow ≡ some (escrow_src_data c.escrow)
    pub taker_is : a.taker ≡ c.escrow.taker
    pub maker_is : a.maker ≡ c.escrow.maker
    pub mint_is : a.mint ≡ c.escrow.token
    pub apart : a.escrow ≢ a.taker
    pub mint_key : c.mint.key ≡ a.mint
    pub escrow_ata_is : IsAssociated p l a.escrow_ata a.mint a.escrow a.token_program c.escrow_ata
    pub maker_ata_is : load_optional p l a.maker_ata a.mint a.maker a.token_program ≡ ok c.maker_ata

  pub load_cancellation-IsCancellation :
      (signed : ℕ → Bool) (a : CancelEscrow) (l : Ledger) {c : Cancellation}
      → load_cancellation p signed a l ≡ ok c
      → IsCancellation a l c
  unfolding load_cancellation
  load_cancellation-IsCancellation signed a l {c} h =
      let (mint, mint_read, h₁) = >>=-eq-ok (load_mint l a.mint) _ h in
      let (e, stored, h₂) = >>=-eq-ok (load_escrow l a.escrow) _ h₁ in
      let (taker_ok, h₃) = require-eq-ok (a.taker == e.taker) _ _ h₂ in
      let (maker_ok, h₃') = require-eq-ok (a.maker == e.maker) _ _ h₃ in
      let (mint_ok, h₄) = require-eq-ok (a.mint == e.token) _ _ h₃' in
      let (apart, h₅) = check-eq-ok (not (a.escrow == a.taker)) _ _ h₄ in
      let (_, _, h₆) =
        >>=-eq-ok
          (check_seeds p a.escrow (escrow_seeds e.order_hash e.hashlock a.taker e.amount) e.bump
            src_id)
          _ h₅ in
      let (ea, ea_ok, h₇) =
        >>=-eq-ok (load_associated p l a.escrow_ata a.mint a.escrow a.token_program) _ h₆ in
      let (ma, ma_ok, h₈) =
        >>=-eq-ok (load_optional p l a.maker_ata a.mint a.maker a.token_program) _ h₇ in
      subst (IsCancellation a l) (ok-injective h₈) (record {
        stored = load_escrow-eq l a.escrow stored;
        taker_is = ==→eq a.taker e.taker taker_ok;
        maker_is = ==→eq a.maker e.maker maker_ok;
        mint_is = ==→eq a.mint e.token mint_ok;
        apart = differ a.escrow a.taker apart;
        mint_key = load_mint-key l a.mint mint_read;
        escrow_ata_is =
            load_associated-IsAssociated p l a.escrow_ata a.mint a.escrow a.token_program ea_ok;
        maker_ata_is = ma_ok;
      })

  -- The standard instructions ask for the taker's signature, the public ones for a resolver's.
  pub load_withdraw-signed :
      (signed : ℕ → Bool) (a : Withdraw) (l : Ledger) {c : Withdrawal}
      → load_withdraw p signed a l ≡ ok c
      → (signed a.taker ≡ true) × IsWithdrawal a l c
  unfolding load_withdraw
  load_withdraw-signed signed a l h =
      let (s, k) = check-eq-ok (signed a.taker) _ _ h in
      (s, load_withdrawal-IsWithdrawal signed a l k)

  pub load_cancel_escrow-signed :
      (signed : ℕ → Bool) (a : CancelEscrow) (l : Ledger) {c : Cancellation}
      → load_cancel_escrow p signed a l ≡ ok c
      → (signed a.taker ≡ true) × IsCancellation a l c
  unfolding load_cancel_escrow
  load_cancel_escrow-signed signed a l h =
      let (s, k) = check-eq-ok (signed a.taker) _ _ h in
      (s, load_cancellation-IsCancellation signed a l k)

  pub check_resolver-signed :
      (signed : ℕ → Bool) (program resolver access : ℕ) (l : Ledger) {u : Unit {0}}
      → check_resolver p signed program resolver access l ≡ ok u
      → IsResolver signed program resolver access l
  unfolding check_resolver
  check_resolver-signed signed program resolver access l h =
      let (s, k) = check-eq-ok (signed resolver) _ _ h in
      let (r, e, k') = >>=-eq-ok (load_access l access) _ k in
      record { signs = s; registered = r; kept = load_access-eq l access e; derived = k' }

  pub load_public_withdraw-signed :
      (signed : ℕ → Bool) (b : PublicWithdraw) (l : Ledger) {c : Withdrawal}
      → load_public_withdraw p signed b l ≡ ok c
      → IsResolver signed src_id b.payer b.resolver_access l × IsWithdrawal b.withdraw l c
  unfolding load_public_withdraw
  load_public_withdraw-signed signed b l h =
      let (_, r, k) = >>=-eq-ok (check_resolver p signed src_id b.payer b.resolver_access l) _ h in
      (
        check_resolver-signed signed src_id b.payer b.resolver_access l r,
        load_withdrawal-IsWithdrawal signed b.withdraw l k,
      )

  pub load_public_cancel_escrow-signed :
      (signed : ℕ → Bool) (b : PublicCancelEscrow) (l : Ledger) {c : Cancellation}
      → load_public_cancel_escrow p signed b l ≡ ok c
      → IsResolver signed src_id b.payer b.resolver_access l × IsCancellation b.cancel l c
  unfolding load_public_cancel_escrow
  load_public_cancel_escrow-signed signed b l h =
      let (_, r, k) = >>=-eq-ok (check_resolver p signed src_id b.payer b.resolver_access l) _ h in
      (
        check_resolver-signed signed src_id b.payer b.resolver_access l r,
        load_cancellation-IsCancellation signed b.cancel l k,
      )
