-- ===== src/Src/Settle/Cancelled.antt =====
-- What a cancelled escrow leaves behind, and when an escrow can be cancelled.
use solana_crosschain_protoc.Base.{
  ℕ, ◌+◌, ◌≤◌, ◌<◌, ◌≡◌, ◌≢◌, sym, ap, subst, ◌∙◌, Bool, true, false, Option, none, some, ok,
  >>=-eq-ok, require-eq-ok, ok-injective, leb→le, leb, arith,
}
use mathlib.Core.Path.{subst₂}
use solana_crosschain_protoc.Ledger.{
  Ledger, escrow_src_data, balance, balance_of, fee_of, TokenAccount, get_current_timestamp,
}
use solana_crosschain_protoc.Platform.{Platform}
use solana_crosschain_protoc.Platform.Laws.{Keeps, Shuts, PlatformLaws}
use solana_crosschain_protoc.Platform.Accounts.Facts.{IsAssociated-ne, load_optional-IsAssociated}
use solana_crosschain_protoc.Common.Timelocks.{src_cancellation, src_public_cancellation, get}
use solana_crosschain_protoc.Common.Escrow.{process_payout}
use solana_crosschain_protoc.Common.Escrow.Effects.{payout_tokens, payout_lamports, payout_closes}
use solana_crosschain_protoc.Src.State.{EscrowSrc}
use solana_crosschain_protoc.Src.Accounts.{src_id}
use solana_crosschain_protoc.Src.Accounts.Withdraw.{Withdraw}
use solana_crosschain_protoc.Src.Accounts.Cancel.{
  CancelEscrow, PublicCancelEscrow, Cancellation, load_cancel_escrow, load_public_cancel_escrow,
}
use solana_crosschain_protoc.Src.Settle.{
  timelocks_of, signer_seeds, utils_cancel, withdraw, cancel_escrow, public_cancel_escrow,
}
use solana_crosschain_protoc.Src.Settle.Loads.{
  IsCancellation, IsResolver, load_cancel_escrow-signed, load_public_cancel_escrow-signed,
}
use solana_crosschain_protoc.Src.Settle.Outcome.{Deposits, distribute-Deposits, withdraw-Withdrawn}

-- The maker has the assets back: the escrow's amount of lamports, where the maker's key is that of
-- no other account, or all of the escrow's tokens, less the fee that the mint withholds.
abbrev Refunded : CancelEscrow → ℕ → ℕ → Ledger → Ledger → Bool → Type 0
Refunded a amount recipient l l' true =
    a.maker ≢ a.escrow
    → a.maker ≢ a.escrow_ata
    → a.maker ≢ a.taker
    → a.maker ≢ recipient
    → a.escrow_ata ≢ a.escrow
    → l'.lamports a.maker ≡ l.lamports a.maker + amount
Refunded a amount recipient l l' false =
    a.maker ≢ a.escrow
    → (to : ℕ) × (a.maker_ata ≡ some to)
      × (balance l' to + fee_of l a.mint (balance l a.escrow_ata)
          ≡ balance l to + balance l a.escrow_ata)

-- What every cancellation leaves behind.
pub record Cancelled (a : CancelEscrow) (l l' : Ledger) : Type 0 where
  pub escrow_closed : l'.accounts a.escrow ≡ none
  pub accounts_kept : (k : ℕ) → k ≢ a.escrow → l'.accounts k ≡ l.accounts k
  pub ata_gone : l'.tokens a.escrow_ata ≡ none

module _ (p : Platform) (laws : PlatformLaws p) where
  -- The refund, by the kind of the assets.
  refund :
      (a : CancelEscrow) (c : Cancellation) (native : Bool) (recipient : ℕ) (l n m l' : Ledger)
      → IsCancellation p a l c
      → process_payout p c.mint native c.escrow.amount a.escrow c.escrow_ata a.maker c.maker_ata
          a.taker
          (signer_seeds c.escrow)
          a.token_program
          l
        ≡ ok n
      → Deposits a.escrow c.escrow.safety_deposit a.taker recipient n m
      → Shuts a.escrow a.taker m l'
      → Refunded a c.escrow.amount recipient l l' native
  refund a c true recipient l n m l' w h dep shut = λ x y z u v.
      let key = w.escrow_ata_is.key_is in
      let un =
        payout_lamports p laws c.mint c.escrow.amount a.escrow c.escrow_ata a.maker c.maker_ata
          a.taker (signer_seeds c.escrow) a.token_program l n h (λ q. v (sym key ∙ q)) x
          (λ q. y (q ∙ key)) in
      shut.lamports_kept a.maker x z ∙ dep.lamports_kept a.maker x u ∙ un.recipient_paid
  refund a c false recipient l n m l' w h dep shut = λ x.
      let key = w.escrow_ata_is.key_is in
      let (to, some_to, paid) =
        payout_tokens p laws c.mint c.escrow.amount a.escrow c.escrow_ata a.maker c.maker_ata
          a.taker (signer_seeds c.escrow) a.token_program l n h in
      let (j, at_j, is) =
        load_optional-IsAssociated p l a.maker_ata a.mint a.maker a.token_program
          (w.maker_ata_is ∙ ap ok some_to) in
      let apart = IsAssociated-ne p w.escrow_ata_is is (λ q. x (sym q)) in
      let rel = paid (λ q. apart (sym key ∙ q ∙ is.key_is)) in
      (
        j,
        at_j,
        ap (λ (t : Option TokenAccount). balance_of t + fee_of l a.mint (balance l a.escrow_ata))
              (shut.tokens_kept j ∙ dep.tokens_kept j)
            ∙ subst (λ (x : ℕ). balance n j + fee_of l a.mint x ≡ balance l j + x)
                w.escrow_ata_is.amount_is
                (subst₂
                  (λ x y.
                    balance n y + fee_of l x c.escrow_ata.amount
                    ≡ balance l y + c.escrow_ata.amount)
                  w.mint_key is.key_is rel.credited),
      )

  -- Whatever the assets are, the payout keeps the programs' accounts and closes the token account.
  payout-Keeps :
      (a : CancelEscrow) (c : Cancellation) (native : Bool) (l n : Ledger)
      → IsCancellation p a l c
      → process_payout p c.mint native c.escrow.amount a.escrow c.escrow_ata a.maker c.maker_ata
          a.taker
          (signer_seeds c.escrow)
          a.token_program
          l
        ≡ ok n
      → Keeps l n × (n.tokens a.escrow_ata ≡ none)
  payout-Keeps a c native l n w h =
      let (k, gone) =
        payout_closes p laws c.mint native c.escrow.amount a.escrow c.escrow_ata a.maker c.maker_ata
          a.taker (signer_seeds c.escrow) a.token_program l n h in
      (k, subst (λ x. n.tokens x ≡ none) w.escrow_ata_is.key_is gone)

  cancelled :
      (a : CancelEscrow) (c : Cancellation) (recipient : ℕ) (l m l' : Ledger)
      → IsCancellation p a l c
      → utils_cancel p c.escrow a.escrow c.escrow_ata c.maker_ata c.mint a.token_program a.taker
          a.maker recipient l
        ≡ ok m
      → p.close a.escrow a.taker m ≡ ok l'
      → Cancelled a l l' × Refunded a c.escrow.amount recipient l l' c.escrow.asset_is_native
  unfolding utils_cancel
  cancelled a c recipient l m l' w h s =
      let (n, e, k) =
        >>=-eq-ok
          (process_payout p c.mint c.escrow.asset_is_native c.escrow.amount a.escrow c.escrow_ata
            a.maker c.maker_ata a.taker (signer_seeds c.escrow) a.token_program l)
          _ h in
      let dep =
        distribute-Deposits p laws a.escrow c.escrow.safety_deposit a.taker recipient n m k in
      let shut = laws.close_lem a.escrow a.taker m l' s in
      let (kept, gone) = payout-Keeps a c c.escrow.asset_is_native l n w e in
      (
        record {
          escrow_closed = shut.data_gone;
          accounts_kept =
              λ j x. shut.accounts_kept j x ∙ dep.keeps.accounts_kept j ∙ kept.accounts_kept j;
          ata_gone = shut.tokens_kept a.escrow_ata ∙ dep.tokens_kept a.escrow_ata ∙ gone;
        },
        refund a c c.escrow.asset_is_native recipient l n m l' w e dep shut,
      )

  -- The parts of a cancellation by the taker that succeeds.
  cancel_escrow_parts :
      (signed : ℕ → Bool) (a : CancelEscrow) (l l' : Ledger)
      → cancel_escrow p signed a l ≡ ok l'
      → (e : EscrowSrc) × (start : ℕ) × (l.accounts a.escrow ≡ some (escrow_src_data e))
        × (signed a.taker ≡ true)
        × (a.taker ≡ e.taker)
        × (a.maker ≡ e.maker)
        × (get p.u256 (timelocks_of e) src_cancellation ≡ ok start)
        × (start ≤ get_current_timestamp l)
        × Cancelled a l l'
        × Refunded a e.amount a.taker l l' e.asset_is_native
  unfolding cancel_escrow
  cancel_escrow_parts signed a l l' h =
      let (c, e, h₁) = >>=-eq-ok (load_cancel_escrow p signed a l) _ h in
      let (start, e', h₂) = >>=-eq-ok (get p.u256 (timelocks_of c.escrow) src_cancellation) _ h₁ in
      let (started, h₃) = require-eq-ok (leb start (get_current_timestamp l)) _ _ h₂ in
      let (m, e'', s) =
        >>=-eq-ok
          (utils_cancel p c.escrow a.escrow c.escrow_ata c.maker_ata c.mint a.token_program a.taker
            a.maker a.taker l)
          _ h₃ in
      let (sig, w) = load_cancel_escrow-signed p signed a l e in
      let (done, paid) = cancelled a c a.taker l m l' w e'' s in
      (
        c.escrow,
        start,
        w.stored,
        sig,
        w.taker_is,
        w.maker_is,
        e',
        leb→le start _ started,
        done,
        paid,
      )

  -- A cancellation that succeeds was signed by the taker of the escrow that it names and names its
  -- maker, at or after the start of `SrcCancellation`; the escrow is closed, its token account is
  -- gone, and no other account of the programs has changed.
  pub cancel_escrow-Cancelled :
      (signed : ℕ → Bool) (a : CancelEscrow) (l l' : Ledger)
      → cancel_escrow p signed a l ≡ ok l'
      → (e : EscrowSrc) × (start : ℕ) × (l.accounts a.escrow ≡ some (escrow_src_data e))
        × (signed a.taker ≡ true)
        × (a.taker ≡ e.taker)
        × (a.maker ≡ e.maker)
        × (get p.u256 (timelocks_of e) src_cancellation ≡ ok start)
        × (start ≤ get_current_timestamp l)
        × Cancelled a l l'
  cancel_escrow-Cancelled signed a l l' h =
      let (e, start, st, sig, t, mk, g, le, done, paid) = cancel_escrow_parts signed a l l' h in
      (e, start, st, sig, t, mk, g, le, done)

  -- Where the escrow holds wrapped lamports, a cancellation that succeeds adds the escrow's amount
  -- to the maker's lamports, where the maker's key is that of no other account of the call.
  pub cancel_escrow_native :
      (signed : ℕ → Bool) (a : CancelEscrow) (l l' : Ledger) (e : EscrowSrc)
      → l.accounts a.escrow ≡ some (escrow_src_data e)
      → e.asset_is_native ≡ true
      → a.maker ≢ a.escrow
      → a.maker ≢ a.escrow_ata
      → a.maker ≢ a.taker
      → a.escrow_ata ≢ a.escrow
      → cancel_escrow p signed a l ≡ ok l'
      → l'.lamports a.maker ≡ l.lamports a.maker + e.amount
  cancel_escrow_native signed a l l' e stored native x y z v h =
      let (e', start, st, sig, t, mk, g, le, done, paid) = cancel_escrow_parts signed a l l' h in
      let native' : e'.asset_is_native ≡ true = cc (stored, st, native) in
      let same : e'.amount ≡ e.amount = cc (stored, st) in
      subst (Refunded a e'.amount a.taker l l') native' paid x y z z v
      ∙ ap (λ (n : ℕ). l.lamports a.maker + n) same

  -- Of one escrow, a withdrawal by the taker succeeds only at a time strictly before every time at
  -- which a cancellation by the taker succeeds: the two windows never overlap.
  pub withdraw_before_cancel_escrow :
      (signed signed' : ℕ → Bool) (b : Withdraw) (a : CancelEscrow) (secret : ℕ)
      (l l' m m' : Ledger)
      → m.accounts a.escrow ≡ l.accounts b.escrow
      → withdraw p signed b secret l ≡ ok l'
      → cancel_escrow p signed' a m ≡ ok m'
      → get_current_timestamp l < get_current_timestamp m
  withdraw_before_cancel_escrow signed signed' b a secret l l' m m' same h h' =
      let (e, st, sig, t, open_now, done) = withdraw-Withdrawn p laws signed b secret l l' h in
      let (e', start, st', sig', t', mk, g, le, done', paid) =
        cancel_escrow_parts signed' a m m' h' in
      let one : e' ≡ e = cc (st, st', same) in
      let stop : open_now.stop ≡ start = ok-injective (
        sym open_now.stop_read
        ∙ ap (λ (x : EscrowSrc). get p.u256 (timelocks_of x) src_cancellation) (sym one)
        ∙ g) in
      omega (arith, open_now.not_stopped, stop, le)

  -- A public cancellation that succeeds was signed by a resolver that the whitelist program keeps
  -- an account for, at or after the start of `SrcPublicCancellation`, and names the escrow's taker
  -- and maker; the escrow is closed, its token account is gone, and no other account of the
  -- programs has changed.
  pub public_cancel_escrow-Cancelled :
      (signed : ℕ → Bool) (b : PublicCancelEscrow) (l l' : Ledger)
      → public_cancel_escrow p signed b l ≡ ok l'
      → (e : EscrowSrc) × (start : ℕ) × (l.accounts b.cancel.escrow ≡ some (escrow_src_data e))
        × IsResolver p signed src_id b.payer b.resolver_access l
        × (b.cancel.taker ≡ e.taker)
        × (b.cancel.maker ≡ e.maker)
        × (get p.u256 (timelocks_of e) src_public_cancellation ≡ ok start)
        × (start ≤ get_current_timestamp l)
        × Cancelled b.cancel l l'
  unfolding public_cancel_escrow
  public_cancel_escrow-Cancelled signed b l l' h =
      let a = b.cancel in
      let (c, e, h₁) = >>=-eq-ok (load_public_cancel_escrow p signed b l) _ h in
      let (start, e', h₂) =
        >>=-eq-ok (get p.u256 (timelocks_of c.escrow) src_public_cancellation) _ h₁ in
      let (started, h₃) = require-eq-ok (leb start (get_current_timestamp l)) _ _ h₂ in
      let (m, e'', s) =
        >>=-eq-ok
          (utils_cancel p c.escrow a.escrow c.escrow_ata c.maker_ata c.mint a.token_program a.taker
            a.maker b.payer l)
          _ h₃ in
      let (res, w) = load_public_cancel_escrow-signed p signed b l e in
      (
        c.escrow,
        start,
        w.stored,
        res,
        w.taker_is,
        w.maker_is,
        e',
        leb→le start _ started,
        (cancelled a c b.payer l m l' w e'' s).0,
      )
