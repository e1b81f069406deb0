-- ===== src/Dst/Settled.antt =====
-- What a withdrawal and a cancellation on the destination side leave behind, and when they succeed.
use solana_crosschain_protoc.Base.{
  ℕ, ◌≤◌, ◌<◌, ◌≡◌, ◌≢◌, sym, ap, subst, ◌∙◌, Bool, true, none, some, ok, >>=-eq-ok, check-eq-ok,
  require-eq-ok, ok-injective, ==→eq, ◌==◌, leb→le, leb, arith, ◌⊎◌, inl, inr,
}
use solana_crosschain_protoc.Base.Bytes.{be_bytes}
use solana_crosschain_protoc.Ledger.{Ledger, escrow_dst_data, get_current_timestamp}
use solana_crosschain_protoc.Platform.{Platform}
use solana_crosschain_protoc.Platform.Laws.{PlatformLaws}
use solana_crosschain_protoc.Common.Timelocks.{
  dst_withdrawal, dst_public_withdrawal, dst_cancellation, get,
}
use solana_crosschain_protoc.Common.Timelocks.Windows.{in_window, IsOpen, in_window-IsOpen}
use solana_crosschain_protoc.Common.Escrow.{process_payout}
use solana_crosschain_protoc.Common.Escrow.Effects.{payout_closes}
use solana_crosschain_protoc.Src.Accounts.{check_resolver}
use solana_crosschain_protoc.Src.Settle.Loads.{IsResolver, check_resolver-signed}
use solana_crosschain_protoc.Src.Settle.Outcome.{distribute-Deposits}
use solana_crosschain_protoc.Dst.State.{EscrowDst}
use solana_crosschain_protoc.Dst.Accounts.{
  dst_id, Withdraw, PublicWithdraw, Withdrawal, Cancel, load_withdraw, load_public_withdraw,
  load_cancel,
}
use solana_crosschain_protoc.Dst.{
  timelocks_of, signer_seeds, utils_withdraw, withdraw, public_withdraw, cancel,
}
use solana_crosschain_protoc.Dst.Loads.{
  IsWithdrawal, load_withdrawal-IsWithdrawal, load_cancel-IsCancellation,
}

-- The escrow and its token account are gone, and no other account of the programs has changed.
pub record Settled (escrow escrow_ata : ℕ) (l l' : Ledger) : Type 0 where
  pub escrow_closed : l'.accounts escrow ≡ none
  pub accounts_kept : (k : ℕ) → k ≢ escrow → l'.accounts k ≡ l.accounts k
  pub ata_gone : l'.tokens escrow_ata ≡ none

module _ (p : Platform) (laws : PlatformLaws p) where
  -- The part that both withdrawals share.
  utils_withdraw-Settled :
      (a : Withdraw) (c : Withdrawal) (recipient secret : ℕ) (l l₀ m l' : Ledger)
      → IsWithdrawal p laws a l l₀ c
      → utils_withdraw p c.escrow a.escrow c.escrow_ata a.recipient c.recipient_ata c.mint
          a.token_program a.creator recipient secret l₀
        ≡ ok m
      → p.close a.escrow a.creator m ≡ ok l'
      → (p.hash (be_bytes 32 secret) ≡ c.escrow.hashlock) × Settled a.escrow a.escrow_ata l l'
  unfolding utils_withdraw
  utils_withdraw-Settled a c recipient secret l l₀ m l' w h s =
      let (shown, h₁) = require-eq-ok (p.hash (be_bytes 32 secret) == c.escrow.hashlock) _ _ h in
      let (n, e, h₂) =
        >>=-eq-ok
          (process_payout p c.mint c.escrow.asset_is_native c.escrow.amount a.escrow c.escrow_ata
            a.recipient c.recipient_ata a.creator (signer_seeds c.escrow) a.token_program l₀)
          _ h₁ in
      let (kept, gone) =
        payout_closes p laws c.mint c.escrow.asset_is_native c.escrow.amount a.escrow c.escrow_ata
          a.recipient c.recipient_ata a.creator (signer_seeds c.escrow) a.token_program l₀ n e in
      let dep =
        distribute-Deposits p laws a.escrow c.escrow.safety_deposit a.creator recipient n m h₂ in
      let shut = laws.close_lem a.escrow a.creator m l' s in
      (
        ==→eq (p.hash (be_bytes 32 secret)) c.escrow.hashlock shown,
        record {
          escrow_closed = shut.data_gone;
          accounts_kept = λ k x.
              shut.accounts_kept k x
              ∙ dep.keeps.accounts_kept k
              ∙ kept.accounts_kept k
              ∙ w.keeps.accounts_kept k;
          ata_gone =
              shut.tokens_kept a.escrow_ata
              ∙ dep.tokens_kept a.escrow_ata
              ∙ subst (λ x. n.tokens x ≡ none) w.escrow_ata_is.key_is gone;
        },
      )

  -- A withdrawal on the destination side that succeeds was signed by the escrow's creator and names
  -- the escrow's recipient, at a time from the start of `DstWithdrawal` and before
  -- `DstCancellation`, with a secret whose hash is the escrow's hashlock; the escrow and its token
  -- account are gone, and no other account of the programs has changed.
  pub withdraw-Settled :
      (signed : ℕ → Bool) (a : Withdraw) (secret : ℕ) (l l' : Ledger)
      → withdraw p signed a secret l ≡ ok l'
      → (e : EscrowDst) × (l.accounts a.escrow ≡ some (escrow_dst_data e))
        × (signed a.creator ≡ true)
        × (a.creator ≡ e.creator)
        × (a.recipient ≡ e.recipient)
        × IsOpen p.u256 (timelocks_of e) (get_current_timestamp l) dst_withdrawal dst_cancellation
        × (p.hash (be_bytes 32 secret) ≡ e.hashlock)
        × Settled a.escrow a.escrow_ata l l'
  unfolding withdraw load_withdraw
  withdraw-Settled signed a secret l l' h =
      let ((c, l₀), e, h₁) = >>=-eq-ok (load_withdraw p signed a l) _ h in
      let (open_now, e', h₂) =
        >>=-eq-ok
          (in_window p.u256 (timelocks_of c.escrow) (get_current_timestamp l) dst_withdrawal
            dst_cancellation)
          _ h₁ in
      let (ok_now, h₃) = require-eq-ok open_now _ _ h₂ in
      let (m, e'', s) =
        >>=-eq-ok
          (utils_withdraw p c.escrow a.escrow c.escrow_ata a.recipient c.recipient_ata c.mint
            a.token_program a.creator a.creator secret l₀)
          _ h₃ in
      let (sig, k) = check-eq-ok (signed a.creator) _ _ e in
      let w = load_withdrawal-IsWithdrawal p laws signed a a.creator l k in
      let (shown, settled) = utils_withdraw-Settled a c a.creator secret l l₀ m l' w e'' s in
      (
        c.escrow,
        w.stored,
        sig,
        w.creator_is,
        w.recipient_is,
        in_window-IsOpen p.u256 (timelocks_of c.escrow) (get_current_timestamp l) dst_withdrawal
            dst_cancellation (e' ∙ ap ok ok_now),
        shown,
        settled,
      )

  -- A public withdrawal on the destination side that succeeds was signed by a resolver that the
  -- whitelist program keeps an account for, and names the escrow's creator and recipient, at a time
  -- from the start of `DstPublicWithdrawal` and before `DstCancellation`, with a secret whose hash
  -- is the escrow's hashlock; the escrow and its token account are gone, and no other account of
  -- the programs has changed.
  pub public_withdraw-Settled :
      (signed : ℕ → Bool) (b : PublicWithdraw) (secret : ℕ) (l l' : Ledger)
      → public_withdraw p signed b secret l ≡ ok l'
      → (e : EscrowDst) × (l.accounts b.withdraw.escrow ≡ some (escrow_dst_data e))
        × IsResolver p signed dst_id b.payer b.resolver_access l
        × (b.withdraw.creator ≡ e.creator)
        × (b.withdraw.recipient ≡ e.recipient)
        × IsOpen p.u256
            (timelocks_of e)
            (get_current_timestamp l)
            dst_public_withdrawal
            dst_cancellation
        × (p.hash (be_bytes 32 secret) ≡ e.hashlock)
        × Settled b.withdraw.escrow b.withdraw.escrow_ata l l'
  unfolding public_withdraw load_public_withdraw
  public_withdraw-Settled signed b secret l l' h =
      let a = b.withdraw in
      let ((c, l₀), e, h₁) = >>=-eq-ok (load_public_withdraw p signed b l) _ h in
      let (open_now, e', h₂) =
        >>=-eq-ok
          (in_window p.u256 (timelocks_of c.escrow) (get_current_timestamp l) dst_public_withdrawal
            dst_cancellation)
          _ h₁ in
      let (ok_now, h₃) = require-eq-ok open_now _ _ h₂ in
      let (m, e'', s) =
        >>=-eq-ok
          (utils_withdraw p c.escrow a.escrow c.escrow_ata a.recipient c.recipient_ata c.mint
            a.token_program a.creator b.payer secret l₀)
          _ h₃ in
      let (_, r, k) = >>=-eq-ok (check_resolver p signed dst_id b.payer b.resolver_access l) _ e in
      let w = load_withdrawal-IsWithdrawal p laws signed a b.payer l k in
      let (shown, settled) = utils_withdraw-Settled a c b.payer secret l l₀ m l' w e'' s in
      (
        c.escrow,
        w.stored,
        check_resolver-signed p signed dst_id b.payer b.resolver_access l r,
        w.creator_is,
        w.recipient_is,
        in_window-IsOpen p.u256 (timelocks_of c.escrow) (get_current_timestamp l)
            dst_public_withdrawal dst_cancellation (e' ∙ ap ok ok_now),
        shown,
        settled,
      )

  -- A cancellation on the destination side that succeeds was signed by the escrow's creator, at or
  -- after the start of `DstCancellation`; the escrow and its token account are gone, and no other
  -- account of the programs has changed.
  pub cancel-Settled :
      (signed : ℕ → Bool) (a : Cancel) (l l' : Ledger)
      → cancel p signed a l ≡ ok l'
      → (e : EscrowDst) × (start : ℕ) × (l.accounts a.escrow ≡ some (escrow_dst_data e))
        × (signed a.creator ≡ true)
        × (a.creator ≡ e.creator)
        × (get p.u256 (timelocks_of e) dst_cancellation ≡ ok start)
        × (start ≤ get_current_timestamp l)
        × Settled a.escrow a.escrow_ata l l'
  unfolding cancel
  cancel-Settled signed a l l' h =
      let (c, e, h₁) = >>=-eq-ok (load_cancel p signed a l) _ h in
      let (start, e', h₂) = >>=-eq-ok (get p.u256 (timelocks_of c.escrow) dst_cancellation) _ h₁ in
      let (started, h₃) = require-eq-ok (leb start (get_current_timestamp l)) _ _ h₂ in
      let (m, e'', s) =
        >>=-eq-ok
          (process_payout p c.mint c.escrow.asset_is_native c.escrow.amount a.escrow c.escrow_ata
            a.creator c.creator_ata a.creator (signer_seeds c.escrow) a.token_program l)
          _ h₃ in
      let w = load_cancel-IsCancellation p laws signed a l e in
      let (kept, gone) =
        payout_closes p laws c.mint c.escrow.asset_is_native c.escrow.amount a.escrow c.escrow_ata
          a.creator c.creator_ata a.creator (signer_seeds c.escrow) a.token_program l m e'' in
      let shut = laws.close_lem a.escrow a.creator m l' s in
      (
        c.escrow,
        start,
        w.stored,
        w.signs,
        w.creator_is,
        e',
        leb→le start _ started,
        record {
          escrow_closed = shut.data_gone;
          accounts_kept = λ k x. shut.accounts_kept k x ∙ kept.accounts_kept k;
          ata_gone =
              shut.tokens_kept a.escrow_ata
              ∙ subst (λ x. m.tokens x ≡ none) w.escrow_ata_is.key_is gone;
        },
      )

  -- Of one escrow on the destination side, a withdrawal, by the creator or public, succeeds only at
  -- a time strictly before every time at which a cancellation succeeds.
  pub withdraw_before_cancel :
      (signed signed' : ℕ → Bool) (b : PublicWithdraw) (a : Cancel) (secret : ℕ)
      (l l' m m' : Ledger)
      → m.accounts a.escrow ≡ l.accounts b.withdraw.escrow
      → (withdraw p signed b.withdraw secret l ≡ ok l')
        ⊎ (public_withdraw p signed b secret l ≡ ok l')
      → cancel p signed' a m ≡ ok m'
      → get_current_timestamp l < get_current_timestamp m
  withdraw_before_cancel signed signed' b a secret l l' m m' same h h' =
      let (e', start, st', sig', cr, g, le, done') = cancel-Settled signed' a m m' h' in
      let closed : (e : EscrowDst) (stop : ℕ)
          → l.accounts b.withdraw.escrow ≡ some (escrow_dst_data e)
          → get p.u256 (timelocks_of e) dst_cancellation ≡ ok stop
          → stop ≡ start =
        λ e stop st read.
          let one : e' ≡ e = cc (st, st', same) in
          ok-injective (
            sym read
            ∙ ap (λ (x : EscrowDst). get p.u256 (timelocks_of x) dst_cancellation) (sym one)
            ∙ g) in
      elim h [
        | inl k ↦
            let (e, st, sig, c, r, open_now, shown, done) =
              withdraw-Settled signed b.withdraw secret l l' k in
            omega (arith, open_now.not_stopped, closed e open_now.stop st open_now.stop_read, le)
        | inr k ↦
            let (e, st, res, c, r, open_now, shown, done) =
              public_withdraw-Settled signed b secret l l' k in
            omega (arith, open_now.not_stopped, closed e open_now.stop st open_now.stop_read, le)
      ]
