-- ===== src/Src/CancelOrder/Outcome.antt =====
-- Who may cancel an order, and when.
use solana_crosschain_protoc.Base.{
  ℕ, ◌+◌, ◌≤◌, ◌<◌, ◌≡◌, ◌≢◌, ◌∙◌, refl, sym, subst, sub64_eq, Bool, true, some, none, ok, leb, ltb,
  min, leb→le, ltb→lt, sub64, >>=-eq-ok, check-eq-ok, require-eq-ok, arith,
}
use solana_crosschain_protoc.Ledger.{Ledger, order_data, get_current_timestamp}
use solana_crosschain_protoc.Platform.{Platform}
use solana_crosschain_protoc.Platform.Laws.{PlatformLaws}
use solana_crosschain_protoc.Common.Escrow.{native_transfer, uni_transfer}
use solana_crosschain_protoc.Common.Escrow.Effects.{native_transfer-Pays}
use solana_crosschain_protoc.Src.Auction.{calculate_premium}
use solana_crosschain_protoc.Src.Auction.Premium.{premium_mono}
use solana_crosschain_protoc.Src.State.{Order}
use solana_crosschain_protoc.Src.Accounts.{src_id, check_resolver}
use solana_crosschain_protoc.Src.Settle.Loads.{IsResolver, check_resolver-signed}
use solana_crosschain_protoc.Src.CreateEscrow.{order_signer}
use solana_crosschain_protoc.Src.CancelOrder.{
  CancelOrder, CancelOrderByResolver, is_none, same_trait, load_order_accounts, return_tokens,
  cancel_order, cancel_order_by_resolver,
}
use solana_crosschain_protoc.Src.CancelOrder.Returns.{
  load_order_accounts-IsOrder, Returned, return_tokens-Returned,
}

module _ (p : Platform) (laws : PlatformLaws p) where
  -- The parts of a cancellation by the creator that succeeds.
  cancel_order_parts :
      (signed : ℕ → Bool) (a : CancelOrder) (l l' : Ledger)
      → cancel_order p signed a l ≡ ok l'
      → (o : Order) × (l₁ : Ledger) × (l.accounts a.order ≡ some (order_data o))
        × (signed o.creator ≡ true)
        × (a.order ≢ a.creator)
        × Returned p laws a o.asset_is_native l l₁
        × (l'.accounts a.order ≡ none)
        × ((k : ℕ) → k ≢ a.order → l'.accounts k ≡ l.accounts k)
        × (l'.tokens a.order_ata ≡ none)
        × ((k : ℕ) → k ≢ a.order_ata → l'.tokens k ≡ l₁.tokens k)
  unfolding cancel_order
  cancel_order_parts signed a l l' h =
      let (sig, h₁) = check-eq-ok (signed a.creator) _ _ h in
      let (c, e, h₂) = >>=-eq-ok (load_order_accounts p a l) _ h₁ in
      let (_, h₃) =
        require-eq-ok (same_trait c.order.asset_is_native (is_none c.creator_ata)) _ _ h₂ in
      let (l₁, e', h₄) = >>=-eq-ok (return_tokens p a c l) _ h₃ in
      let (l₂, e'', s) =
        >>=-eq-ok
          (p.close_account a.token_program c.order_ata.key a.creator a.order
            (some (order_signer c.order)) l₁)
          _ h₄ in
      let w = load_order_accounts-IsOrder p laws a l e in
      let back = return_tokens-Returned p laws a c c.order.asset_is_native l l₁ w refl e' in
      let cl =
        laws.close_account_lem a.token_program c.order_ata.key a.creator a.order
          (some (order_signer c.order)) l₁ l₂ e'' in
      let shut = laws.close_lem a.order a.creator l₂ l' s in
      let key = w.order_ata_is.key_is in
      (
        c.order,
        l₁,
        w.stored,
        subst (λ x. signed x ≡ true) w.creator_is sig,
        w.apart,
        back,
        shut.data_gone,
        λ k d. shut.accounts_kept k d ∙ cl.keeps.accounts_kept k ∙ back.keeps.accounts_kept k,
        shut.tokens_kept a.order_ata ∙ subst (λ x. l₂.tokens x ≡ none) key cl.gone,
        λ k d. shut.tokens_kept k ∙ cl.others_kept k (λ q. d (q ∙ key)),
      )

  -- A `cancel_order` that succeeds was signed by the creator of the order that it names; the order
  -- is closed, no other account of the programs has changed, and the order's token account is gone.
  pub cancel_order-signed :
      (signed : ℕ → Bool) (a : CancelOrder) (l l' : Ledger)
      → cancel_order p signed a l ≡ ok l'
      → (o : Order) × (l.accounts a.order ≡ some (order_data o))
        × (signed o.creator ≡ true)
        × (l'.accounts a.order ≡ none)
        × ((k : ℕ) → k ≢ a.order → l'.accounts k ≡ l.accounts k)
        × (l'.tokens a.order_ata ≡ none)
  cancel_order-signed signed a l l' h =
      let (o, l₁, stored, sig, apart, back, gone, kept, closed, tokens) =
        cancel_order_parts signed a l l' h in
      (o, stored, sig, gone, kept, closed)

  -- The resolver has the smaller of the premium and the reward limit on top of its lamports, where
  -- its key is none of the others' of the call.
  abbrev Rewarded : CancelOrderByResolver → ℕ → ℕ → Ledger → Ledger → Type 0
  Rewarded b premium reward_limit l l' =
      b.resolver ≢ b.cancel.creator
      → b.resolver ≢ b.cancel.order
      → b.resolver ≢ b.cancel.order_ata
      → b.cancel.creator_ata ≢ some b.resolver
      → l'.lamports b.resolver ≡ l.lamports b.resolver + min premium reward_limit

  -- The parts of a cancellation by a resolver that succeeds.
  cancel_order_by_resolver_parts :
      (signed : ℕ → Bool) (b : CancelOrderByResolver) (reward_limit : ℕ) (l l' : Ledger)
      → cancel_order_by_resolver p signed b reward_limit l ≡ ok l'
      → (o : Order) × (premium : ℕ) × (l.accounts b.cancel.order ≡ some (order_data o))
        × IsResolver p signed src_id b.resolver b.resolver_access l
        × (o.expiration_time ≤ get_current_timestamp l)
        × (0 < o.max_cancellation_premium)
        × (calculate_premium
              (get_current_timestamp l)
              o.expiration_time
              o.cancellation_auction_duration
              o.max_cancellation_premium
            ≡ ok premium)
        × (l'.accounts b.cancel.order ≡ none)
        × (l'.tokens b.cancel.order_ata ≡ none)
        × Rewarded b premium reward_limit l l'
  unfolding cancel_order_by_resolver
  cancel_order_by_resolver_parts signed b reward_limit l l' h =
      let a = b.cancel in
      let now = get_current_timestamp l in
      let (_, r, h₁) =
        >>=-eq-ok (check_resolver p signed src_id b.resolver b.resolver_access l) _ h in
      let (c, e, h₂) = >>=-eq-ok (load_order_accounts p a l) _ h₁ in
      let o = c.order in
      let (expired, h₃) = require-eq-ok (leb o.expiration_time now) _ _ h₂ in
      let (allowed, h₄) = require-eq-ok (ltb 0 o.max_cancellation_premium) _ _ h₃ in
      let (_, h₅) = require-eq-ok (same_trait o.asset_is_native (is_none c.creator_ata)) _ _ h₄ in
      let (l₁, e', h₆) = >>=-eq-ok (return_tokens p a c l) _ h₅ in
      let (premium, pr, h₇) =
        >>=-eq-ok
          (calculate_premium now o.expiration_time o.cancellation_auction_duration
            o.max_cancellation_premium)
          _ h₆ in
      let (maker_amount, rest, h₈) =
        >>=-eq-ok (sub64 (l₁.lamports c.order_ata.key) (min premium reward_limit)) _ h₇ in
      let (l₂, e'', h₉) =
        >>=-eq-ok
          (p.close_account a.token_program c.order_ata.key b.resolver a.order
            (some (order_signer o)) l₁)
          _ h₈ in
      let (l₃, e₃, s) =
        >>=-eq-ok
          (uni_transfer p (native_transfer b.resolver a.creator maker_amount b.system_program) none
            l₂)
          _ h₉ in
      let w = load_order_accounts-IsOrder p laws a l e in
      let key = w.order_ata_is.key_is in
      let back = return_tokens-Returned p laws a c c.order.asset_is_native l l₁ w refl e' in
      let cl =
        laws.close_account_lem a.token_program c.order_ata.key b.resolver a.order
          (some (order_signer o)) l₁ l₂ e'' in
      let pay =
        native_transfer-Pays p laws b.resolver a.creator maker_amount b.system_program none l₂ l₃
          e₃ in
      let shut = laws.close_lem a.order a.creator l₃ l' s in
      (
        o,
        premium,
        w.stored,
        check_resolver-signed p signed src_id b.resolver b.resolver_access l r,
        leb→le o.expiration_time now expired,
        ltb→lt 0 _ allowed,
        pr,
        shut.data_gone,
        shut.tokens_kept a.order_ata
            ∙ pay.tokens_kept a.order_ata
            ∙ subst (λ x. l₂.tokens x ≡ none) key cl.gone,
        λ x y z v.
            let kept = back.lamports_kept b.resolver z v in
            let paid = cl.paid (λ q. z (sym q ∙ key)) in
            let left = pay.from_debited x in
            let last = shut.lamports_kept b.resolver y x in
            omega (arith, kept, paid, left, last, sub64_eq _ _ rest),
      )

  -- A cancellation by a resolver that succeeds was signed by a resolver that the whitelist program
  -- keeps an account for, of an order that has expired and that sets a highest premium above 0; the
  -- order and its token account are gone.
  pub cancel_order_by_resolver-expired :
      (signed : ℕ → Bool) (b : CancelOrderByResolver) (reward_limit : ℕ) (l l' : Ledger)
      → cancel_order_by_resolver p signed b reward_limit l ≡ ok l'
      → (o : Order) × (l.accounts b.cancel.order ≡ some (order_data o))
        × IsResolver p signed src_id b.resolver b.resolver_access l
        × (o.expiration_time ≤ get_current_timestamp l)
        × (0 < o.max_cancellation_premium)
        × (l'.accounts b.cancel.order ≡ none)
        × (l'.tokens b.cancel.order_ata ≡ none)
  cancel_order_by_resolver-expired signed b reward_limit l l' h =
      let (o, premium, stored, r, expired, allowed, pr, gone, closed, reward) =
        cancel_order_by_resolver_parts signed b reward_limit l l' h in
      (o, stored, r, expired, allowed, gone, closed)

  -- After a cancellation by a resolver that succeeds the resolver has the smaller of the premium for
  -- the time of the call and the reward limit on top of the lamports that it had, where its key is
  -- none of the creator's, the order's and those of their token accounts. The premium is no more
  -- than the order's highest.
  pub cancel_order_by_resolver_reward :
      (signed : ℕ → Bool) (b : CancelOrderByResolver) (reward_limit : ℕ) (l l' : Ledger) (o : Order)
      → l.accounts b.cancel.order ≡ some (order_data o)
      → b.resolver ≢ b.cancel.creator
      → b.resolver ≢ b.cancel.order
      → b.resolver ≢ b.cancel.order_ata
      → b.cancel.creator_ata ≢ some b.resolver
      → cancel_order_by_resolver p signed b reward_limit l ≡ ok l'
      → (premium : ℕ) × (calculate_premium
            (get_current_timestamp l)
            o.expiration_time
            o.cancellation_auction_duration
            o.max_cancellation_premium
          ≡ ok premium)
        × (premium ≤ o.max_cancellation_premium)
        × (l'.lamports b.resolver ≡ l.lamports b.resolver + min premium reward_limit)
  cancel_order_by_resolver_reward signed b reward_limit l l' o is x y z v h =
      let now = get_current_timestamp l in
      let (o', premium, stored, r, expired, allowed, pr, gone, closed, reward) =
        cancel_order_by_resolver_parts signed b reward_limit l l' h in
      let same : o' ≡ o = cc (stored, is) in
      let pr' =
        subst
          (λ (q : Order).
            calculate_premium now q.expiration_time q.cancellation_auction_duration
              q.max_cancellation_premium
            ≡ ok premium)
          same pr in
      (
        premium,
        pr',
        (premium_mono now now o.expiration_time o.cancellation_auction_duration
            o.max_cancellation_premium pr' pr' (omega arith)).1,
        reward x y z v,
      )
