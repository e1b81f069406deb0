-- ===== src/Src/Settle/Outcome.antt =====
-- What a settled escrow leaves behind.
use solana_crosschain_protoc.Base.{
  ℕ, ◌+◌, ◌≡◌, ◌≢◌, refl, sym, ap, subst, ◌∙◌, eq→==, Bool, true, Bool-cases, inl, inr, Option,
  none, some, ok, ◌>>=◌, >>=-eq-ok, require-eq-ok, ok-injective, ==→eq, ◌==◌, arith,
}
use mathlib.Core.Bool.{false≢true}
use mathlib.Core.Path.{subst₂}
use solana_crosschain_protoc.Base.Bytes.{be_bytes}
use solana_crosschain_protoc.Ledger.{
  Ledger, escrow_src_data, balance, balance_of, fee_of, TokenAccount, get_current_timestamp,
}
use solana_crosschain_protoc.Platform.{Platform}
use solana_crosschain_protoc.Platform.Laws.{Keeps, PlatformLaws}
use solana_crosschain_protoc.Platform.Accounts.Facts.{IsAssociated-ne}
use solana_crosschain_protoc.Common.Timelocks.{
  src_withdrawal, src_public_withdrawal, src_cancellation,
}
use solana_crosschain_protoc.Common.Timelocks.Windows.{in_window, IsOpen, in_window-IsOpen}
use solana_crosschain_protoc.Common.Escrow.{withdraw_and_close_token_ata}
use solana_crosschain_protoc.Common.Escrow.Effects.{
  Keeps-refl, Keeps-trans, withdraw_and_close-Releases,
}
use solana_crosschain_protoc.Src.State.{EscrowSrc}
use solana_crosschain_protoc.Src.Accounts.{src_id}
use solana_crosschain_protoc.Src.Accounts.Withdraw.{
  Withdraw, PublicWithdraw, Withdrawal, load_withdraw, load_public_withdraw,
}
use solana_crosschain_protoc.Src.Settle.{
  timelocks_of, signer_seeds, distribute_safety_deposit, utils_withdraw, withdraw, public_withdraw,
}
use solana_crosschain_protoc.Src.Settle.Loads.{
  IsWithdrawal, IsResolver, load_withdraw-signed, load_public_withdraw-signed,
}

-- The safety deposit has gone from the escrow to its recipient, unless that is the rent's.
pub record Deposits (escrow deposit rent recipient : ℕ) (l l' : Ledger) : Type 0 where
  pub tokens_kept : (k : ℕ) → l'.tokens k ≡ l.tokens k
  pub lamports_kept : (k : ℕ) → k ≢ escrow → k ≢ recipient → l'.lamports k ≡ l.lamports k
  pub recipient_paid :
      rent ≢ recipient → recipient ≢ escrow → l'.lamports recipient ≡ l.lamports recipient + deposit
  pub escrow_debited :
      rent ≢ recipient → recipient ≢ escrow → l'.lamports escrow + deposit ≡ l.lamports escrow
  pub unpaid : rent ≡ recipient → (k : ℕ) → l'.lamports k ≡ l.lamports k
  pub keeps : Keeps l l'

-- What a withdrawal that succeeds has shown, paid and closed.
pub record Withdrawn (p : Platform) (a : Withdraw) (e : EscrowSrc) (secret : ℕ) (l l' : Ledger)
    : Type 0 where
  pub secret_shown : p.hash (be_bytes 32 secret) ≡ e.hashlock
  pub ata_gone : l'.tokens a.escrow_ata ≡ none
  pub taker_paid :
      balance l' a.taker_ata + fee_of l a.mint (balance l a.escrow_ata)
      ≡ balance l a.taker_ata + balance l a.escrow_ata
  pub tokens_kept : (k : ℕ) → k ≢ a.escrow_ata → k ≢ a.taker_ata → l'.tokens k ≡ l.tokens k
  pub escrow_closed : l'.accounts a.escrow ≡ none
  pub accounts_kept : (k : ℕ) → k ≢ a.escrow → l'.accounts k ≡ l.accounts k

-- The recipient of the safety deposit has it, if its key is none of the others'.
abbrev DepositPaid : Withdraw → EscrowSrc → ℕ → Ledger → Ledger → Type 0
DepositPaid a e recipient l l' =
    recipient ≢ a.taker
    → recipient ≢ a.escrow
    → recipient ≢ a.escrow_ata
    → recipient ≢ a.taker_ata
    → l'.lamports recipient ≡ l.lamports recipient + e.safety_deposit

module _ (p : Platform) (laws : PlatformLaws p) where
  pub distribute-Deposits :
      (escrow deposit rent recipient : ℕ) (l l' : Ledger)
      → distribute_safety_deposit p escrow deposit rent recipient l ≡ ok l'
      → Deposits escrow deposit rent recipient l l'
  unfolding distribute_safety_deposit
  distribute-Deposits escrow deposit rent recipient l l' h = elim (Bool-cases (rent == recipient)) [
    | inl same ↦
        let e : l ≡ l' = ok-injective (rw same at h) in
        subst (λ m. Deposits escrow deposit rent recipient l m) e
          (record {
            tokens_kept = λ k. refl;
            lamports_kept = λ k x y. refl;
            recipient_paid = λ d d'. absurd (d (==→eq rent recipient same));
            escrow_debited = λ d d'. absurd (d (==→eq rent recipient same));
            unpaid = λ d k. refl;
            keeps = Keeps-refl l;
          })
    | inr apart ↦
        let h' : (p.sub_lamports escrow deposit l >>= λ m. p.add_lamports recipient deposit m)
            ≡ ok l' =
          rw apart at h in
        let (m, e, k) = >>=-eq-ok (p.sub_lamports escrow deposit l) _ h' in
        let (enough, sb) = laws.sub_lamports_lem escrow deposit l m e in
        let ad = laws.add_lamports_lem recipient deposit m l' k in
        record {
          tokens_kept = λ j. ad.tokens_kept j ∙ sb.tokens_kept j;
          lamports_kept = λ j x y. ad.lamports_kept j y ∙ sb.lamports_kept j x;
          recipient_paid = λ d d'. omega (arith, ad.set_to, sb.lamports_kept recipient d');
          escrow_debited =
              λ d d'. omega (arith, ad.lamports_kept escrow (λ x. d' (sym x)), sb.set_to, enough);
          unpaid = λ d. absurd (false≢true (sym apart ∙ eq→== rent recipient d));
          keeps = Keeps-trans sb.keeps ad.keeps;
        }
  ]

  -- The part that both withdrawals share.
  utils_withdraw-Withdrawn :
      (a : Withdraw) (c : Withdrawal) (recipient secret : ℕ) (l m l' : Ledger)
      → IsWithdrawal p a l c
      → utils_withdraw p c.escrow a.escrow c.escrow_ata c.taker_ata.key c.mint a.token_program
          a.taker recipient secret l
        ≡ ok m
      → p.close a.escrow a.taker m ≡ ok l'
      → Withdrawn p a c.escrow secret l l' × DepositPaid a c.escrow recipient l l'
  unfolding utils_withdraw
  utils_withdraw-Withdrawn a c recipient secret l m l' w h s =
      let (shown, h₁) = require-eq-ok (p.hash (be_bytes 32 secret) == c.escrow.hashlock) _ _ h in
      let (n, e, h₂) =
        >>=-eq-ok
          (withdraw_and_close_token_ata p c.escrow_ata a.escrow c.taker_ata.key c.mint
            a.token_program a.taker (signer_seeds c.escrow) l)
          _ h₁ in
      let apart = IsAssociated-ne p w.escrow_ata_is w.taker_ata_is w.apart in
      let key = w.escrow_ata_is.key_is in
      let to = w.taker_ata_is.key_is in
      let rel =
        withdraw_and_close-Releases p laws c.escrow_ata a.escrow c.taker_ata.key c.mint
          a.token_program a.taker (signer_seeds c.escrow) l n (λ x. apart (sym key ∙ x ∙ to)) e in
      let dep = distribute-Deposits a.escrow c.escrow.safety_deposit a.taker recipient n m h₂ in
      let shut = laws.close_lem a.escrow a.taker m l' s in
      let tokens = λ (k : ℕ). shut.tokens_kept k ∙ dep.tokens_kept k in
      (
        record {
          secret_shown = ==→eq (p.hash (be_bytes 32 secret)) c.escrow.hashlock shown;
          ata_gone = tokens a.escrow_ata ∙ subst (λ x. n.tokens x ≡ none) key rel.gone;
          taker_paid =
              ap
                (λ (t : Option TokenAccount).
                  balance_of t + fee_of l a.mint (balance l a.escrow_ata))
                (tokens a.taker_ata)
              ∙ subst
                  (λ (x : ℕ). balance n a.taker_ata + fee_of l a.mint x ≡ balance l a.taker_ata + x)
                  w.escrow_ata_is.amount_is
                  (subst₂
                    (λ x y.
                      balance n y + fee_of l x c.escrow_ata.amount
                      ≡ balance l y + c.escrow_ata.amount)
                    w.mint_key to rel.credited);
          tokens_kept = λ k x y. tokens k ∙ rel.others_kept k (λ q. x (q ∙ key)) (λ q. y (q ∙ to));
          escrow_closed = shut.data_gone;
          accounts_kept =
              λ k x. shut.accounts_kept k x ∙ dep.keeps.accounts_kept k ∙ rel.keeps.accounts_kept k;
        },
        λ x y z w'.
            shut.lamports_kept recipient y x
            ∙ dep.recipient_paid (λ q. x (sym q)) y
            ∙ ap (λ (v : ℕ). v + c.escrow.safety_deposit)
                (rel.lamports_kept recipient (λ q. z (q ∙ key)) (λ q. w' (q ∙ to)) x),
      )

  pub withdraw-Withdrawn :
      (signed : ℕ → Bool) (a : Withdraw) (secret : ℕ) (l l' : Ledger)
      → withdraw p signed a secret l ≡ ok l'
      → (e : EscrowSrc) × (l.accounts a.escrow ≡ some (escrow_src_data e))
        × (signed a.taker ≡ true)
        × (a.taker ≡ e.taker)
        × IsOpen p.u256 (timelocks_of e) (get_current_timestamp l) src_withdrawal src_cancellation
        × Withdrawn p a e secret l l'
  unfolding withdraw
  withdraw-Withdrawn signed a secret l l' h =
      let (c, e, h₁) = >>=-eq-ok (load_withdraw p signed a l) _ h in
      let (b, e', h₂) =
        >>=-eq-ok
          (in_window p.u256 (timelocks_of c.escrow) (get_current_timestamp l) src_withdrawal
            src_cancellation)
          _ h₁ in
      let (ok_now, h₃) = require-eq-ok b _ _ h₂ in
      let (m, e'', s) =
        >>=-eq-ok
          (utils_withdraw p c.escrow a.escrow c.escrow_ata c.taker_ata.key c.mint a.token_program
            a.taker a.taker secret l)
          _ h₃ in
      let (sig, w) = load_withdraw-signed p signed a l e in
      (
        c.escrow,
        w.stored,
        sig,
        w.taker_is,
        in_window-IsOpen p.u256 (timelocks_of c.escrow) (get_current_timestamp l) src_withdrawal
            src_cancellation (e' ∙ ap ok ok_now),
        (utils_withdraw-Withdrawn a c a.taker secret l m l' w e'' s).0,
      )

  -- The parts of a public withdrawal that succeeds.
  public_withdraw_parts :
      (signed : ℕ → Bool) (b : PublicWithdraw) (secret : ℕ) (l l' : Ledger)
      → public_withdraw p signed b secret l ≡ ok l'
      → (e : EscrowSrc) × (l.accounts b.withdraw.escrow ≡ some (escrow_src_data e))
        × IsResolver p signed src_id b.payer b.resolver_access l
        × (b.withdraw.taker ≡ e.taker)
        × IsOpen p.u256
            (timelocks_of e)
            (get_current_timestamp l)
            src_public_withdrawal
            src_cancellation
        × Withdrawn p b.withdraw e secret l l'
        × DepositPaid b.withdraw e b.payer l l'
  unfolding public_withdraw
  public_withdraw_parts signed b secret l l' h =
      let a = b.withdraw in
      let (c, e, h₁) = >>=-eq-ok (load_public_withdraw p signed b l) _ h in
      let (t, e', h₂) =
        >>=-eq-ok
          (in_window p.u256 (timelocks_of c.escrow) (get_current_timestamp l) src_public_withdrawal
            src_cancellation)
          _ h₁ in
      let (ok_now, h₃) = require-eq-ok t _ _ h₂ in
      let (m, e'', s) =
        >>=-eq-ok
          (utils_withdraw p c.escrow a.escrow c.escrow_ata c.taker_ata.key c.mint a.token_program
            a.taker b.payer secret l)
          _ h₃ in
      let (res, w) = load_public_withdraw-signed p signed b l e in
      let (paid, deposit) = utils_withdraw-Withdrawn a c b.payer secret l m l' w e'' s in
      (
        c.escrow,
        w.stored,
        res,
        w.taker_is,
        in_window-IsOpen p.u256 (timelocks_of c.escrow) (get_current_timestamp l)
            src_public_withdrawal src_cancellation (e' ∙ ap ok ok_now),
        paid,
        deposit,
      )

  -- After a public withdrawal that succeeds the resolver has the escrow's safety deposit on top of
  -- the lamports that it had, where its key is none of the taker's, the escrow's and those of
  -- their token accounts.
  pub public_withdraw_deposit :
      (signed : ℕ → Bool) (b : PublicWithdraw) (secret : ℕ) (l l' : Ledger) (e : EscrowSrc)
      → l.accounts b.withdraw.escrow ≡ some (escrow_src_data e)
      → b.payer ≢ b.withdraw.taker
      → b.payer ≢ b.withdraw.escrow
      → b.payer ≢ b.withdraw.escrow_ata
      → b.payer ≢ b.withdraw.taker_ata
      → public_withdraw p signed b secret l ≡ ok l'
      → l'.lamports b.payer ≡ l.lamports b.payer + e.safety_deposit
  public_withdraw_deposit signed b secret l l' e stored x y z w h =
      let (e', stored', res, taker, open_now, paid, deposit) =
        public_withdraw_parts signed b secret l l' h in
      let same : e' ≡ e = cc (stored, stored') in
      deposit x y z w ∙ ap (λ (r : EscrowSrc). l.lamports b.payer + r.safety_deposit) same
