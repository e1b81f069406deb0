-- ===== src/Src/CreateEscrow/Effects.antt =====
-- The steps of a fill: the hashlock, the transfer, and what becomes of the order.
use solana_crosschain_protoc.Base.{
  arith, ◌+◌, refl, ◌%◌, ◌/◌, ◌^◌, ℕ, ◌-◌, ◌≤◌, ◌≡◌, ◌≢◌, sym, ap, subst, ◌∙◌, Bool, true, false,
  Bool-cases, inl, inr, Option, none, some, ok, ◌>>=◌, >>=-eq-ok, require-eq-ok, ok-injective,
  ==→eq, ◌==◌, if◌then◌else◌, sub64, sub64_eq,
}
use solana_crosschain_protoc.Ledger.{
  balance, balance_of, fee_of, fee_of-mints, Ledger, order_data, store, update_self, update_ne,
}
use solana_crosschain_protoc.Platform.{Platform}
use solana_crosschain_protoc.Platform.Laws.{PlatformLaws}
use solana_crosschain_protoc.Common.Escrow.{token_transfer, uni_transfer}
use solana_crosschain_protoc.Common.Escrow.Effects.{token_transfer-Moves}
use solana_crosschain_protoc.Src.Merkle.{MerkleProof}
use solana_crosschain_protoc.Src.Merkle.{process_proof}
use solana_crosschain_protoc.Src.Fill.{is_valid_partial_fill}
use solana_crosschain_protoc.Src.State.{Order}
use solana_crosschain_protoc.Src.Accounts.Fill.{FillAccounts, CreateEscrow}
use solana_crosschain_protoc.Src.CreateEscrow.{
  order_signer, is_some, same_bool, amount_allowed, completes, fill_hashlock, finish_order,
}
use solana_crosschain_protoc.Src.CreateEscrow.Loads.{IsFilling}

-- The order is gone, with its token account, or keeps what the fill has left of it.
pub record Finished (a : CreateEscrow) (o : Order) (amount : ℕ) (l l' : Ledger) : Type 0 where
  pub closed :
      completes o amount ≡ true → (l'.accounts a.order ≡ none) × (l'.tokens a.order_ata ≡ none)
  pub lowered :
      completes o amount ≡ false
      → (amount ≤ o.remaining_amount)
        × (l'.accounts a.order
            ≡ some (order_data (record o { remaining_amount = o.remaining_amount - amount })))
  pub accounts_kept : (k : ℕ) → k ≢ a.order → l'.accounts k ≡ l.accounts k
  pub tokens_kept : (k : ℕ) → k ≢ a.order_ata → l'.tokens k ≡ l.tokens k

-- What the order, its kind and the proof have in common, and the hashlock that they give.
pub record Locked (p : Platform) (o : Order) (amount : ℕ) (merkle_proof : Option MerkleProof)
    (hashlock : ℕ) : Type 0 where
  pub single :
      o.allow_multiple_fills ≡ false
      → (amount ≡ o.amount) × (merkle_proof ≡ none) × (hashlock ≡ o.hashlock)
  pub several :
      o.allow_multiple_fills ≡ true
      → (amount ≤ o.remaining_amount)
        × (m : MerkleProof) × (merkle_proof ≡ some m)
        × (process_proof p.hashv m % 2 ^ 240 ≡ o.hashlock % 2 ^ 240)
        × (is_valid_partial_fill amount o.remaining_amount o.amount (o.hashlock / 2 ^ 240) m.index
            ≡ ok true)
        × (hashlock ≡ m.hashed_secret)

pub fill_hashlock-Locked :
    (p : Platform) (o : Order) (amount : ℕ) (merkle_proof : Option MerkleProof) {hashlock : ℕ}
    → amount_allowed o amount ≡ true
    → same_bool o.allow_multiple_fills (is_some merkle_proof) ≡ true
    → fill_hashlock p o amount merkle_proof ≡ ok hashlock
    → Locked p o amount merkle_proof hashlock
unfolding fill_hashlock amount_allowed
fill_hashlock-Locked p o amount none allowed same h = record {
  single = λ x. (ground arith, refl, ground arith);
  several =
      λ x. absurd (let bad : false ≡ true = subst (λ b. same_bool b false ≡ true) x same in cc);
}
fill_hashlock-Locked p o amount (some m) {hashlock} allowed same h =
    let (root_ok, h₁) =
      require-eq-ok (process_proof p.hashv m % 2 ^ 240 == o.hashlock % 2 ^ 240) _ _ h in
    let (valid, v, h₂) =
      >>=-eq-ok
        (is_valid_partial_fill amount o.remaining_amount o.amount (o.hashlock / 2 ^ 240) m.index) _
        h₁ in
    let (valid_is, q) = require-eq-ok valid _ _ h₂ in
    record {
      single =
          λ x. absurd (let bad : false ≡ true = subst (λ b. same_bool b true ≡ true) x same in cc);
      several = λ x. (
        ground arith,
        m,
        refl,
        ==→eq _ (o.hashlock % 2 ^ 240) root_ok,
        v ∙ ap ok valid_is,
        sym (ok-injective q),
      );
    }

-- What the fill sends to the escrow's token account: all that the order's account holds, if the
-- fill takes all that remains, and its amount otherwise.
pub record Sent (a : CreateEscrow) (o : Order) (amount : ℕ) (l l' : Ledger) : Type 0 where
  pub sent : ℕ
  pub sent_all : o.remaining_amount ≡ amount → sent ≡ balance l a.order_ata
  pub sent_part : o.remaining_amount ≢ amount → sent ≡ amount
  pub covered : sent ≤ balance l a.order_ata
  pub escrow_holds : sent ≤ balance l' a.escrow_ata + fee_of l a.mint sent

module _ (p : Platform) (laws : PlatformLaws p) where
  pub finish_order-Finished :
      (a : CreateEscrow) (o : Order) (amount : ℕ) (l l' : Ledger)
      → finish_order p a o amount l ≡ ok l'
      → Finished a o amount l l'
  unfolding finish_order
  finish_order-Finished a o amount l l' h = elim (Bool-cases (completes o amount)) [
    | inl full ↦
        let h' : (p.close_account a.token_program a.order_ata a.maker a.order
                (some (order_signer o)) l
              >>= λ m. p.close a.order a.maker m)
            ≡ ok l' =
          rw full at h in
        let (m, e, s) =
          >>=-eq-ok
            (p.close_account a.token_program a.order_ata a.maker a.order (some (order_signer o)) l)
            _ h' in
        let cl =
          laws.close_account_lem a.token_program a.order_ata a.maker a.order (some (order_signer o))
            l m e in
        let shut = laws.close_lem a.order a.maker m l' s in
        record {
          closed = λ x. (shut.data_gone, shut.tokens_kept a.order_ata ∙ cl.gone);
          lowered = λ x. absurd (let bad : true ≡ false = sym full ∙ x in cc);
          accounts_kept = λ k x. shut.accounts_kept k x ∙ cl.keeps.accounts_kept k;
          tokens_kept = λ k x. shut.tokens_kept k ∙ cl.others_kept k x;
        }
    | inr part ↦
        let h' : (sub64 o.remaining_amount amount >>= λ r.
        ok (store a.order (some (order_data (record o { remaining_amount = r }))) l))
            ≡ ok l' =
          rw part at h in
        let (r, e, q) = >>=-eq-ok (sub64 o.remaining_amount amount) _ h' in
        let (r_is, covered) = sub64_eq o.remaining_amount amount e in
        let d = λ (x : ℕ). some (order_data (record o { remaining_amount = x })) in
        subst (λ m. Finished a o amount l m) (ok-injective q)
          (record {
            closed = λ x. absurd (let bad : true ≡ false = sym x ∙ part in cc);
            lowered = λ x. (covered, update_self l.accounts a.order (d r) ∙ ap d r_is);
            accounts_kept = λ k x. update_ne l.accounts a.order k (d r) x;
            tokens_kept = λ k x. refl;
          })
  ]

  pub transfer-Sent :
      (signed : ℕ → Bool) (a : CreateEscrow) (amount : ℕ) (l l₁ l' : Ledger) (c : FillAccounts)
      → IsFilling p laws signed a l c
      → uni_transfer p
          (token_transfer c.order_ata.key a.order c.escrow_ata.key c.mint
            (if c.order.remaining_amount == amount then c.order_ata.amount else amount)
            a.token_program)
          (some (order_signer c.order))
          c.ledger
        ≡ ok l₁
      → ((k : ℕ) → k ≢ a.order_ata → l'.tokens k ≡ l₁.tokens k)
      → Sent a c.order amount l l'
  transfer-Sent signed a amount l l₁ l' c f moved kept =
      let sent = if c.order.remaining_amount == amount then c.order_ata.amount else amount in
      let mv =
        token_transfer-Moves p laws c.order_ata.key a.order c.escrow_ata.key c.mint sent
          a.token_program (some (order_signer c.order)) c.ledger l₁ moved in
      let from = f.order_ata_is.key_is in
      let to = f.escrow_ata_key in
      let escrow-ne : a.escrow ≢ a.order = λ x. cc (f.stored, f.escrow_fresh, ap l.accounts x) in
      let apart : a.order_ata ≢ a.escrow_ata = λ x. escrow-ne (
        sym (f.escrow_ata_owned f.order_ata_is.found (ap l.tokens (sym x) ∙ f.order_ata_is.present))
        ∙ f.order_ata_is.owned) in
      let holds = mv.to_credited (λ x. apart (sym from ∙ x ∙ to)) in
      let fee =
        fee_of-mints l c.ledger c.mint.key sent (f.mints_kept c.mint.key)
        ∙ ap (λ (x : ℕ). fee_of l x sent) f.mint_key in
      let held =
        ap balance_of (kept a.escrow_ata (λ x. apart (sym x))) ∙ ap (balance l₁) (sym to) in
      let had = ap (balance c.ledger) from ∙ ap balance_of (f.tokens_kept a.order_ata apart) in
      record {
        sent = sent;
        sent_all = λ x. ground (arith, f.order_ata_is.amount_is);
        sent_part = λ x. ground arith;
        covered = omega (arith, mv.covered, had);
        escrow_holds = omega (arith, holds, fee, held);
      }
