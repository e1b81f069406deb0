-- ===== src/Src/CreateEscrow/Loads.antt =====
-- What the accounts of `create_escrow` are, where their checks pass.
use solana_crosschain_protoc.Base.{
  ℕ, ◌+◌, ◌≡◌, ◌≢◌, refl, sym, ap, subst, ◌∙◌, Bool, Option, none, some, Option-cases, inl, inr, ok,
  ◌>>=◌, >>=-eq-ok, check-eq-ok, require-eq-ok, ok-injective, ==→eq, ◌==◌,
}
use solana_crosschain_protoc.Ledger.{TokenAccount, Ledger, order_data}
use solana_crosschain_protoc.Common.Constants.{discriminator_bytes}
use solana_crosschain_protoc.Platform.{Platform}
use solana_crosschain_protoc.Platform.Laws.{Keeps, PlatformLaws}
use solana_crosschain_protoc.Platform.Accounts.{
  TokenInfo, load_mint, load_associated, init_associated, check_seeds, find_bump,
}
use solana_crosschain_protoc.Platform.Accounts.Facts.{
  load_mint-key, IsAssociated, load_associated-IsAssociated,
}
use solana_crosschain_protoc.Common.Escrow.Effects.{Keeps-refl}
use solana_crosschain_protoc.Src.State.{escrow_src_space}
use solana_crosschain_protoc.Src.Fill.{get_escrow_hashlock}
use solana_crosschain_protoc.Src.Merkle.{MerkleProof}
use solana_crosschain_protoc.Src.Accounts.{
  src_id, escrow_seeds, order_seeds, load_order, check_resolver,
}
use solana_crosschain_protoc.Src.Accounts.Fill.{CreateEscrow, FillAccounts, load_create_escrow}
use solana_crosschain_protoc.Src.Settle.Loads.{load_order-eq, IsResolver, check_resolver-signed}

-- A token account that may be new: its key, that its authority owned it if it was there, and that
-- nothing else has changed.
pub record IsReady (k authority : ℕ) (l l' : Ledger) (t : TokenInfo) : Type 0 where
  pub key_is : t.key ≡ k
  pub tokens_kept : (j : ℕ) → j ≢ k → l'.tokens j ≡ l.tokens j
  pub owned : (s : TokenAccount) → l.tokens k ≡ some s → s.owner ≡ authority
  pub keeps : Keeps l l'

module _ (p : Platform) (laws : PlatformLaws p) where
  pub init_associated-IsReady :
      (l : Ledger) (payer k mint authority program : ℕ) {t : TokenInfo} {l' : Ledger}
      → init_associated p l payer k mint authority program ≡ ok (t, l')
      → IsReady k authority l l' t
  unfolding init_associated
  init_associated-IsReady l payer k mint authority program {t} {l'} h =
      elim (Option-cases (l.tokens k)) [
        | inr (s, e) ↦
            let h' : (load_associated p l k mint authority program >>= λ t. ok (t, l))
                ≡ ok (t, l') =
              rw (e, init_associated) at h in
            let (t', e', q) = >>=-eq-ok (load_associated p l k mint authority program) _ h' in
            let is = load_associated-IsAssociated p l k mint authority program e' in
            let t_is : t' ≡ t = ap (λ (x : TokenInfo × Ledger). x.0) (ok-injective q) in
            let l_is : l ≡ l' = ap (λ (x : TokenInfo × Ledger). x.1) (ok-injective q) in
            subst (λ m. IsReady k authority l m t) l_is
              (record {
                key_is = ap (λ (x : TokenInfo). x.key) (sym t_is) ∙ is.key_is;
                tokens_kept = λ j x. refl;
                owned = λ r x.
                    ap (λ (o : TokenAccount). o.owner)
                      (let same : r ≡ is.found = cc (x, is.present) in same)
                    ∙ is.owned;
                keeps = Keeps-refl l;
              })
        | inl absent ↦
            let (_, h₁) =
              check-eq-ok (k == p.associated_token_address authority mint program) _ _
                (rw (absent, init_associated) at h) in
            let (m, e, h₂) =
              >>=-eq-ok (p.init_token_account payer k mint authority program l) _ h₁ in
            let (t', e', q) = >>=-eq-ok (load_associated p m k mint authority program) _ h₂ in
            let is = load_associated-IsAssociated p m k mint authority program e' in
            let t_is : t' ≡ t = ap (λ (x : TokenInfo × Ledger). x.0) (ok-injective q) in
            let l_is : m ≡ l' = ap (λ (x : TokenInfo × Ledger). x.1) (ok-injective q) in
            let new = laws.init_token_account_lem payer k mint authority program l m e in
            subst (λ m. IsReady k authority l m t) l_is
              (record {
                key_is = ap (λ (x : TokenInfo). x.key) (sym t_is) ∙ is.key_is;
                tokens_kept = new.tokens_kept;
                owned = λ r x. absurd (let bad : none ≡ some r = sym absent ∙ x in cc);
                keeps = new.keeps;
              })
      ]

  -- The order and the token accounts of a fill, and the new accounts' ledger.
  pub record IsFilling (signed : ℕ → Bool) (a : CreateEscrow) (l : Ledger) (c : FillAccounts)
      : Type 0 where
    pub resolver : IsResolver p signed src_id a.taker a.resolver_access l
    pub stored : l.accounts a.order ≡ some (order_data c.order)
    pub maker_is : a.maker ≡ c.order.creator
    pub mint_is : a.mint ≡ c.order.token
    pub order_ata_is : IsAssociated p l a.order_ata a.mint a.order a.token_program c.order_ata
    pub escrow_fresh : l.accounts a.escrow ≡ none
    pub escrow_ata_key : c.escrow_ata.key ≡ a.escrow_ata
    pub tokens_kept : (k : ℕ) → k ≢ a.escrow_ata → c.ledger.tokens k ≡ l.tokens k
    pub escrow_ata_owned : (s : TokenAccount) → l.tokens a.escrow_ata ≡ some s → s.owner ≡ a.escrow
    pub mint_key : c.mint.key ≡ a.mint
    pub mints_kept : (k : ℕ) → c.ledger.mints k ≡ l.mints k
    pub accounts_kept : (k : ℕ) → k ≢ a.escrow → c.ledger.accounts k ≡ l.accounts k

  pub load_create_escrow-IsFilling :
      (signed : ℕ → Bool) (a : CreateEscrow) (amount : ℕ) (proof : Option MerkleProof) (l : Ledger)
      {c : FillAccounts}
      → load_create_escrow p signed a amount proof l ≡ ok c
      → IsFilling signed a l c
  unfolding load_create_escrow
  load_create_escrow-IsFilling signed a amount proof l h =
      let (_, r, h₁) = >>=-eq-ok (check_resolver p signed src_id a.taker a.resolver_access l) _ h in
      let (mint, mint_ok', h₂) = >>=-eq-ok (load_mint l a.mint) _ h₁ in
      let (o, stored, h₃) = >>=-eq-ok (load_order l a.order) _ h₂ in
      let (oa, oa_ok, h₄) =
        >>=-eq-ok (load_associated p l a.order_ata a.mint a.order a.token_program) _ h₃ in
      let (b, _, h₅) =
        >>=-eq-ok
          (find_bump p a.escrow
            (escrow_seeds o.order_hash (get_escrow_hashlock o.hashlock proof) a.taker amount)
            src_id)
          _ h₄ in
      let (l₁, e₁, h₆) =
        >>=-eq-ok
          (p.init_account a.taker a.escrow (discriminator_bytes + escrow_src_space) src_id l) _
          h₅ in
      let ((t, l₂), e₂, h₇) =
        >>=-eq-ok (init_associated p l₁ a.taker a.escrow_ata a.mint a.escrow a.token_program) _
          h₆ in
      let (maker_ok, h₈) = require-eq-ok (a.maker == o.creator) _ _ h₇ in
      let (mint_ok, h₉) = require-eq-ok (a.mint == o.token) _ _ h₈ in
      let (_, _, q) =
        >>=-eq-ok (check_seeds p a.order (order_seeds o.order_hash) o.bump src_id) _ h₉ in
      let new =
        laws.init_account_lem a.taker a.escrow (discriminator_bytes + escrow_src_space) src_id l l₁
          e₁ in
      let ready =
        init_associated-IsReady l₁ a.taker a.escrow_ata a.mint a.escrow a.token_program e₂ in
      subst (IsFilling signed a l) (ok-injective q) (record {
        resolver = check_resolver-signed p signed src_id a.taker a.resolver_access l r;
        stored = load_order-eq l a.order stored;
        maker_is = ==→eq a.maker o.creator maker_ok;
        mint_is = ==→eq a.mint o.token mint_ok;
        order_ata_is =
            load_associated-IsAssociated p l a.order_ata a.mint a.order a.token_program oa_ok;
        escrow_fresh = new.fresh;
        escrow_ata_key = ready.key_is;
        tokens_kept = λ k x. ready.tokens_kept k x ∙ new.tokens_kept k;
        escrow_ata_owned = λ s x. ready.owned s (new.tokens_kept a.escrow_ata ∙ x);
        mint_key = load_mint-key l a.mint mint_ok';
        mints_kept = λ k. ready.keeps.mints_kept k ∙ new.mints_kept k;
        accounts_kept = λ k x. ready.keeps.accounts_kept k ∙ new.accounts_kept k x;
      })
