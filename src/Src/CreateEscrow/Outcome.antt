-- ===== src/Src/CreateEscrow/Outcome.antt =====
-- What a fill leaves behind: the new escrow, and the order.
use solana_crosschain_protoc.Base.{
  arith, ◌⊎◌, ℕ, ◌-◌, ◌≤◌, ◌<◌, ◌≡◌, ◌≢◌, ap, ◌∙◌, Bool, true, false, Option, none, some, [], ◌∷◌,
  ok, >>=-eq-ok, require-eq-ok, ==→eq, ◌==◌, ltb→lt, ltb, if◌then◌else◌, eq→==,
}
use solana_crosschain_protoc.Uint256.{U256}
use solana_crosschain_protoc.Ledger.{
  Ledger, order_data, escrow_src_data, store, update_self, update_ne, get_current_timestamp,
}
use solana_crosschain_protoc.Platform.{Platform}
use solana_crosschain_protoc.Platform.Laws.{PlatformLaws}
use solana_crosschain_protoc.Common.Escrow.{token_transfer, uni_transfer}
use solana_crosschain_protoc.Common.Escrow.Effects.{token_transfer-Moves}
use solana_crosschain_protoc.Src.Auction.{AuctionData}
use solana_crosschain_protoc.Src.Merkle.{MerkleProof}
use solana_crosschain_protoc.Common.Timelocks.{set_deployed_at, get_timelocks}
use solana_crosschain_protoc.Src.DstAmount.{escrow_dst_amount}
use solana_crosschain_protoc.Src.State.{Order}
use solana_crosschain_protoc.Src.Accounts.Fill.{CreateEscrow, load_create_escrow}
use solana_crosschain_protoc.Src.CreateEscrow.{
  order_signer, is_some, same_bool, amount_allowed, completes, fill_hashlock, new_escrow,
  create_escrow,
}
use solana_crosschain_protoc.Src.CreateEscrow.Loads.{load_create_escrow-IsFilling}
use solana_crosschain_protoc.Src.CreateEscrow.Effects.{
  Locked, Sent, fill_hashlock-Locked, finish_order-Finished, transfer-Sent,
}

module _ (p : Platform) (laws : PlatformLaws p) where
  -- What `create_escrow` has checked and left behind, where it succeeds.
  pub record Opened (a : CreateEscrow) (o : Order) (amount : ℕ) (merkle_proof : Option MerkleProof)
      (auction : AuctionData) (l l' : Ledger) : Type 0 where
    pub in_time : get_current_timestamp l < o.expiration_time
    pub auction_shown : p.hashv (p.encode_auction auction ∷ []) ≡ o.dutch_auction_data_hash
    pub hashlock : ℕ
    pub locked : Locked p o amount merkle_proof hashlock
    pub dst_amount : U256
    pub dst_amount_is :
        escrow_dst_amount p.u256 l.unix_timestamp o.dst_amount amount o.amount auction
        ≡ ok dst_amount
    pub bump : ℕ
    pub escrow_fresh : l.accounts a.escrow ≡ none
    pub escrow_stored :
        l'.accounts a.escrow
        ≡ some (
            escrow_src_data (record {
              order_hash = o.order_hash;
              hashlock = hashlock;
              maker = o.creator;
              taker = a.taker;
              token = o.token;
              amount = amount;
              safety_deposit = o.safety_deposit;
              timelocks =
                  (set_deployed_at p.u256
                    (record { word = o.timelocks })
                    (get_current_timestamp l)).word;
              asset_is_native = o.asset_is_native;
              dst_amount = dst_amount;
              bump = bump;
            }))
    pub funded : Sent a o amount l l'
    pub closed :
        (o.allow_multiple_fills ≡ false) ⊎ (o.remaining_amount ≡ amount)
        → (l'.accounts a.order ≡ none) × (l'.tokens a.order_ata ≡ none)
    pub lowered :
        o.allow_multiple_fills ≡ true
        → o.remaining_amount ≢ amount
        → (amount ≤ o.remaining_amount)
          × (l'.accounts a.order
              ≡ some (order_data (record o { remaining_amount = o.remaining_amount - amount })))
    pub others_kept : (k : ℕ) → k ≢ a.order → k ≢ a.escrow → l'.accounts k ≡ l.accounts k

  pub create_escrow-Opened :
      (signed : ℕ → Bool) (a : CreateEscrow) (amount : ℕ) (merkle_proof : Option MerkleProof)
      (auction : AuctionData) (l l' : Ledger)
      → create_escrow p signed a amount merkle_proof auction l ≡ ok l'
      → (o : Order) × (l.accounts a.order ≡ some (order_data o))
        × (a.maker ≡ o.creator)
        × Opened a o amount merkle_proof auction l l'
  unfolding create_escrow completes new_escrow get_timelocks
  create_escrow-Opened signed a amount merkle_proof auction l l' h =
      let (c, e, h₁) = >>=-eq-ok (load_create_escrow p signed a amount merkle_proof l) _ h in
      let o = c.order in
      let now = get_current_timestamp l in
      let (allowed, h₂) = require-eq-ok (amount_allowed o amount) _ _ h₁ in
      let (in_time, h₃) = require-eq-ok (ltb now o.expiration_time) _ _ h₂ in
      let (shown, h₄) =
        require-eq-ok (p.hashv (p.encode_auction auction ∷ []) == o.dutch_auction_data_hash) _ _
          h₃ in
      let (consistent, h₅) =
        require-eq-ok (same_bool o.allow_multiple_fills (is_some merkle_proof)) _ _ h₄ in
      let (hashlock, lock, h₆) = >>=-eq-ok (fill_hashlock p o amount merkle_proof) _ h₅ in
      let sent = if o.remaining_amount == amount then c.order_ata.amount else amount in
      let (l₁, moved, h₇) =
        >>=-eq-ok
          (uni_transfer p
            (token_transfer c.order_ata.key a.order c.escrow_ata.key c.mint sent a.token_program)
            (some (order_signer o)) c.ledger)
          _ h₆ in
      let (dst, dst_is, h₈) =
        >>=-eq-ok (escrow_dst_amount p.u256 l.unix_timestamp o.dst_amount amount o.amount auction) _
          h₇ in
      let new = some (escrow_src_data (new_escrow p o a.taker amount hashlock now dst c.bump)) in
      let fin = finish_order-Finished p laws a o amount (store a.escrow new l₁) l' h₈ in
      let f = load_create_escrow-IsFilling p laws signed a amount merkle_proof l e in
      let mv =
        token_transfer-Moves p laws c.order_ata.key a.order c.escrow_ata.key c.mint sent
          a.token_program (some (order_signer o)) c.ledger l₁ moved in
      let apart : a.escrow ≢ a.order = λ x. cc (f.stored, f.escrow_fresh, ap l.accounts x) in
      (
        o,
        f.stored,
        f.maker_is,
        record {
          in_time = ltb→lt now o.expiration_time in_time;
          auction_shown = ==→eq _ o.dutch_auction_data_hash shown;
          hashlock = hashlock;
          locked = fill_hashlock-Locked p o amount merkle_proof allowed consistent lock;
          dst_amount = dst;
          dst_amount_is = dst_is;
          bump = c.bump;
          escrow_fresh = f.escrow_fresh;
          escrow_stored = fin.accounts_kept a.escrow apart ∙ update_self l₁.accounts a.escrow new;
          funded = transfer-Sent p laws signed a amount l l₁ l' c f moved fin.tokens_kept;
          closed = λ x. fin.closed (ground (arith, eq→== o.remaining_amount amount));
          lowered = λ x y. fin.lowered (ground arith);
          others_kept = λ k x y.
              fin.accounts_kept k x
              ∙ update_ne l₁.accounts a.escrow k new y
              ∙ mv.keeps.accounts_kept k
              ∙ f.accounts_kept k y;
        },
      )
