-- ===== src/Src/CancelOrder/Returns.antt =====
-- What the accounts of a cancelled order are, and what the return of its tokens does.
use solana_crosschain_protoc.Base.{
  ℕ, ◌+◌, ◌≡◌, ◌≢◌, ◌∙◌, refl, sym, ap, subst, ok_or, ok_or-some, escrow_error, missing_creator_ata,
  Result, if◌then◌else◌, Bool, true, false, not, some, ok, ◌==◌, ==→eq, >>=-eq-ok, check-eq-ok,
  require-eq-ok, ok-injective, arith,
}
use solana_crosschain_protoc.Ledger.{balance, fee_of, Ledger, order_data}
use solana_crosschain_protoc.Platform.{Platform}
use solana_crosschain_protoc.Platform.Laws.{Keeps, PlatformLaws}
use solana_crosschain_protoc.Platform.Accounts.{
  load_mint, load_associated, load_optional, check_seeds,
}
use mathlib.Core.Path.{subst₂}
use solana_crosschain_protoc.Platform.Accounts.Facts.{
  IsAssociated, IsAssociated-ne, load_mint-key, load_associated-IsAssociated,
  load_optional-IsAssociated,
}
use solana_crosschain_protoc.Common.Escrow.Effects.{Keeps-refl, token_transfer-Moves}
use solana_crosschain_protoc.Src.Accounts.{src_id, order_seeds, load_order}
use solana_crosschain_protoc.Src.Settle.Loads.{load_order-eq}
use solana_crosschain_protoc.Src.CreateEscrow.{order_signer}
use solana_crosschain_protoc.Src.CancelOrder.{
  CancelOrder, OrderAccounts, load_order_accounts, return_tokens,
}

if_tokens :
    (native : Bool) (x y : Result Ledger) {z : Result Ledger}
    → native ≡ false
    → (if not native then x else y) ≡ z
    → x ≡ z
if_tokens false x y e h = h
if_tokens true x y e h = cc

module _ (p : Platform) (laws : PlatformLaws p) where
  pub record IsOrder (a : CancelOrder) (l : Ledger) (c : OrderAccounts) : Type 0 where
    pub stored : l.accounts a.order ≡ some (order_data c.order)
    pub creator_is : a.creator ≡ c.order.creator
    pub apart : a.order ≢ a.creator
    pub mint_key : c.mint.key ≡ a.mint
    pub order_ata_is : IsAssociated p l a.order_ata a.mint a.order a.token_program c.order_ata
    pub creator_ata_is :
        load_optional p l a.creator_ata a.mint a.creator a.token_program ≡ ok c.creator_ata

  differ : (a b : ℕ) → not (a == b) ≡ true → a ≢ b
  differ a b h = ground arith

  pub load_order_accounts-IsOrder :
      (a : CancelOrder) (l : Ledger) {c : OrderAccounts}
      → load_order_accounts p a l ≡ ok c
      → IsOrder a l c
  unfolding load_order_accounts
  load_order_accounts-IsOrder a l h =
      let (_, mint_read, h₁) = >>=-eq-ok (load_mint l a.mint) _ h in
      let (o, stored, h₂) = >>=-eq-ok (load_order l a.order) _ h₁ in
      let (creator_ok, h₃) = require-eq-ok (a.creator == o.creator) _ _ h₂ in
      let (_, h₄) = require-eq-ok (a.mint == o.token) _ _ h₃ in
      let (apart, h₅) = check-eq-ok (not (a.order == a.creator)) _ _ h₄ in
      let (_, _, h₆) =
        >>=-eq-ok (check_seeds p a.order (order_seeds o.order_hash) o.bump src_id) _ h₅ in
      let (_, order_ata, h₇) =
        >>=-eq-ok (load_associated p l a.order_ata a.mint a.order a.token_program) _ h₆ in
      let (_, creator_ata, q) =
        >>=-eq-ok (load_optional p l a.creator_ata a.mint a.creator a.token_program) _ h₇ in
      subst (λ (c : OrderAccounts). IsOrder a l c) (ok-injective q)
        (record {
          stored = load_order-eq l a.order stored;
          creator_is = ==→eq a.creator o.creator creator_ok;
          apart = differ a.order a.creator apart;
          mint_key = load_mint-key l a.mint mint_read;
          order_ata_is =
              load_associated-IsAssociated p l a.order_ata a.mint a.order a.token_program order_ata;
          creator_ata_is = creator_ata;
        })

  -- What the return of the tokens leaves behind. The resolver's lamports are untouched, where its
  -- key is none of the token accounts'.
  pub record Returned (a : CancelOrder) (native : Bool) (l m : Ledger) : Type 0 where
    pub keeps : Keeps l m
    pub credited :
        native ≡ false
        → a.creator ≢ a.order
        → (to : ℕ) × (a.creator_ata ≡ some to)
          × (to ≢ a.order_ata)
          × (balance m to + fee_of l a.mint (balance l a.order_ata)
              ≡ balance l to + balance l a.order_ata)
    pub lamports_kept :
        (k : ℕ) → k ≢ a.order_ata → a.creator_ata ≢ some k → m.lamports k ≡ l.lamports k

  pub return_tokens-Returned :
      (a : CancelOrder) (c : OrderAccounts) (native : Bool) (l m : Ledger)
      → IsOrder a l c
      → c.order.asset_is_native ≡ native
      → return_tokens p a c l ≡ ok m
      → Returned a native l m
  unfolding return_tokens
  return_tokens-Returned a c true l m w native h =
      let same : l ≡ m = ok-injective (rw native at h) in
      subst (Returned a true l) same
        (record { keeps = Keeps-refl l; credited = λ e. cc; lamports_kept = λ k d d'. refl })
  return_tokens-Returned a c false l m w native h =
      let (to, read, k) =
        >>=-eq-ok (ok_or c.creator_ata (escrow_error missing_creator_ata)) _
          (if_tokens c.order.asset_is_native _ (ok l) native h) in
      let (j, at_j, is) =
        load_optional-IsAssociated p l a.creator_ata a.mint a.creator a.token_program (
          w.creator_ata_is
          ∙ ap ok (ok_or-some c.creator_ata (escrow_error missing_creator_ata) read)) in
      let mv =
        token_transfer-Moves p laws c.order_ata.key a.order to.key c.mint c.order_ata.amount
          a.token_program (some (order_signer c.order)) l m k in
      let key = w.order_ata_is.key_is in
      record {
        keeps = mv.keeps;
        credited = λ e d.
            let apart = IsAssociated-ne p is w.order_ata_is d in
            (
              j,
              at_j,
              apart,
              subst (λ (x : ℕ). balance m j + fee_of l a.mint x ≡ balance l j + x)
                  w.order_ata_is.amount_is
                  (subst₂
                    (λ x y.
                      balance m y + fee_of l x c.order_ata.amount
                      ≡ balance l y + c.order_ata.amount)
                    w.mint_key is.key_is
                    (mv.to_credited (λ q. apart (sym is.key_is ∙ sym q ∙ key)))),
            );
        lamports_kept = λ k d d'.
            mv.lamports_kept k (λ q. d (q ∙ key))
              (λ q. d' (at_j ∙ ap some (sym is.key_is ∙ sym q)));
      }
