-- ===== src/Dst/Created.antt =====
-- What a new escrow on the destination side is.
use solana_crosschain_protoc.Base.{
  ℕ, ◌+◌, ◌≤◌, ◌<◌, ◌≡◌, ◌≢◌, subst, ◌∙◌, Bool, true, false, not, ◌&&◌, ◌||◌, none, some, ok,
  >>=-eq-ok, check-eq-ok, require-eq-ok, ok_or, ok-injective, ◌==◌, leb→le, leb, arith,
  escrow_error, missing_creator_ata,
}
use solana_crosschain_protoc.Ledger.{
  TokenAccount, Ledger, escrow_dst_data, update_self, update_ne, get_current_timestamp,
}
use solana_crosschain_protoc.Platform.{Platform}
use solana_crosschain_protoc.Platform.Laws.{Keeps, PlatformLaws}
use solana_crosschain_protoc.Platform.Accounts.{
  load_mint, load_optional, init_associated, find_bump,
}
use solana_crosschain_protoc.Platform.Accounts.Facts.{load_mint-key}
use solana_crosschain_protoc.Common.Constants.{discriminator_bytes}
use solana_crosschain_protoc.Common.Timelocks.{
  get_timelocks, get, set_deployed_at, dst_cancellation,
}
use solana_crosschain_protoc.Common.Escrow.Effects.{native_transfer-Pays, token_transfer-Moves}
use solana_crosschain_protoc.Src.Accounts.{escrow_seeds}
use solana_crosschain_protoc.Src.CreateEscrow.Loads.{init_associated-IsReady}
use solana_crosschain_protoc.Dst.State.{escrow_dst_space}
use solana_crosschain_protoc.Dst.Accounts.{dst_id, Create, Creation, load_create}
use solana_crosschain_protoc.Dst.{CreateArgs, new_escrow, deposit, create}

module _ (p : Platform) (laws : PlatformLaws p) where
  -- The new accounts: the escrow's was empty, and of the programs' accounts no other has changed.
  pub record IsCreation (signed : ℕ → Bool) (a : Create) (l : Ledger) (c : Creation) : Type 0 where
    pub signs : signed a.creator ≡ true
    pub fresh : l.accounts a.escrow ≡ none
    pub accounts_kept : (k : ℕ) → k ≢ a.escrow → c.ledger.accounts k ≡ l.accounts k
    pub mints_kept : (k : ℕ) → c.ledger.mints k ≡ l.mints k
    pub mint_key : c.mint.key ≡ a.mint
    pub escrow_ata_key : c.escrow_ata.key ≡ a.escrow_ata
    pub escrow_ata_owned : (s : TokenAccount) → l.tokens a.escrow_ata ≡ some s → s.owner ≡ a.escrow
    pub creator_ata_is :
        load_optional p l a.creator_ata a.mint a.creator a.token_program ≡ ok c.creator_ata

  pub load_create-IsCreation :
      (signed : ℕ → Bool) (a : Create) (order_hash hashlock amount : ℕ) (l : Ledger) {c : Creation}
      → load_create p signed a order_hash hashlock amount l ≡ ok c
      → IsCreation signed a l c
  unfolding load_create
  load_create-IsCreation signed a order_hash hashlock amount l h =
      let (s, h₁) = check-eq-ok (signed a.creator) _ _ h in
      let (_, mint_read, h₂) = >>=-eq-ok (load_mint l a.mint) _ h₁ in
      let (_, ata_read, h₃) =
        >>=-eq-ok (load_optional p l a.creator_ata a.mint a.creator a.token_program) _ h₂ in
      let (_, _, h₄) =
        >>=-eq-ok (find_bump p a.escrow (escrow_seeds order_hash hashlock a.creator amount) dst_id)
          _ h₃ in
      let (l₁, e₁, h₅) =
        >>=-eq-ok
          (p.init_account a.creator a.escrow (discriminator_bytes + escrow_dst_space) dst_id l) _
          h₄ in
      let ((t, l₂), e₂, q) =
        >>=-eq-ok (init_associated p l₁ a.creator a.escrow_ata a.mint a.escrow a.token_program) _
          h₅ in
      let new =
        laws.init_account_lem a.creator a.escrow (discriminator_bytes + escrow_dst_space) dst_id l
          l₁ e₁ in
      let ready =
        init_associated-IsReady p laws l₁ a.creator a.escrow_ata a.mint a.escrow a.token_program
          e₂ in
      subst (IsCreation signed a l) (ok-injective q) (record {
        signs = s;
        fresh = new.fresh;
        accounts_kept = λ k x. ready.keeps.accounts_kept k ∙ new.accounts_kept k x;
        mints_kept = λ k. ready.keeps.mints_kept k ∙ new.mints_kept k;
        mint_key = load_mint-key l a.mint mint_read;
        escrow_ata_key = ready.key_is;
        escrow_ata_owned = λ s x. ready.owned s (new.tokens_kept a.escrow_ata ∙ x);
        creator_ata_is = ata_read;
      })

  deposit-Keeps :
      (a : Create) (c : Creation) (amount : ℕ) (native : Bool) (l l' : Ledger)
      → deposit p a c amount native l ≡ ok l'
      → Keeps l l'
  unfolding deposit
  deposit-Keeps a c amount true l l' h =
      (native_transfer-Pays p laws a.creator c.escrow_ata.key amount a.system_program none l l'
        h).keeps
  deposit-Keeps a c amount false l l' h =
      let (from, _, k) = >>=-eq-ok (ok_or c.creator_ata (escrow_error missing_creator_ata)) _ h in
      (token_transfer-Moves p laws from.key a.creator c.escrow_ata.key c.mint amount a.token_program
        none l l' k).keeps

  -- What `create` has checked and stored, where it succeeds.
  pub record Created (signed : ℕ → Bool) (a : Create) (args : CreateArgs) (l l' : Ledger)
      : Type 0 where
    pub signs : signed a.creator ≡ true
    pub fresh : l.accounts a.escrow ≡ none
    pub bump : ℕ
    pub stored :
        l'.accounts a.escrow
        ≡ some (
            escrow_dst_data (record {
              order_hash = args.order_hash;
              hashlock = args.hashlock;
              creator = a.creator;
              recipient = args.recipient;
              token = a.mint;
              asset_is_native = args.asset_is_native;
              amount = args.amount;
              safety_deposit = args.safety_deposit;
              timelocks =
                  (set_deployed_at p.u256
                    (record { word = args.timelocks })
                    (get_current_timestamp l)).word;
              bump = bump;
            }))
    pub accounts_kept : (k : ℕ) → k ≢ a.escrow → l'.accounts k ≡ l.accounts k
    pub cancellation_start : ℕ
    pub cancellation_read :
        get p.u256
          (set_deployed_at p.u256 (record { word = args.timelocks }) (get_current_timestamp l))
          dst_cancellation
        ≡ ok cancellation_start
    pub cancelled_first : cancellation_start ≤ args.src_cancellation_timestamp
    pub amount_positive : 0 < args.amount
    pub deposit_positive : 0 < args.safety_deposit
    pub deposit_in_rent :
        args.safety_deposit ≤ p.minimum_balance (escrow_dst_space + discriminator_bytes)
    pub native_matches : args.asset_is_native ≡ true → a.mint ≡ p.native_mint

  -- A `create` that succeeds was signed by the creator and has stored a new escrow with its
  -- arguments, its creator and its mint, and the timelocks stamped with the present time; the
  -- destination's cancellation starts no later than the source's; the amount and the safety deposit
  -- are positive and the deposit is no more than the rent; native assets come with the native mint;
  -- no other account of the programs has changed.
  pub create-Created :
      (signed : ℕ → Bool) (a : Create) (args : CreateArgs) (l l' : Ledger)
      → create p signed a args l ≡ ok l'
      → Created signed a args l l'
  unfolding create new_escrow get_timelocks
  create-Created signed a args l l' h =
      let t = set_deployed_at p.u256 (record { word = args.timelocks }) (get_current_timestamp l) in
      let (c, e, h₁) =
        >>=-eq-ok (load_create p signed a args.order_hash args.hashlock args.amount l) _ h in
      let (start, read, h₂) = >>=-eq-ok (get p.u256 t dst_cancellation) _ h₁ in
      let (in_time, h₃) = require-eq-ok (leb start args.src_cancellation_timestamp) _ _ h₂ in
      let (positive, h₄) =
        require-eq-ok (not (args.amount == 0) && not (args.safety_deposit == 0)) _ _ h₃ in
      let (small, h₅) =
        require-eq-ok
          (leb args.safety_deposit (p.minimum_balance (escrow_dst_space + discriminator_bytes))) _ _
          h₄ in
      let (native, h₆) =
        require-eq-ok (a.mint == p.native_mint || not args.asset_is_native) _ _ h₅ in
      let (m, e', q) = >>=-eq-ok (deposit p a c args.amount args.asset_is_native c.ledger) _ h₆ in
      let new = load_create-IsCreation signed a args.order_hash args.hashlock args.amount l e in
      let kept = deposit-Keeps a c args.amount args.asset_is_native c.ledger m e' in
      let d = some (escrow_dst_data (new_escrow a args t c.bump)) in
      subst (λ n. Created signed a args l n) (ok-injective q)
        (record {
          signs = new.signs;
          fresh = new.fresh;
          bump = c.bump;
          stored = update_self m.accounts a.escrow d;
          accounts_kept = λ k x.
              update_ne m.accounts a.escrow k d x ∙ kept.accounts_kept k ∙ new.accounts_kept k x;
          cancellation_start = start;
          cancellation_read = read;
          cancelled_first = leb→le start _ in_time;
          amount_positive = ground arith;
          deposit_positive = ground arith;
          deposit_in_rent = leb→le args.safety_deposit _ small;
          native_matches = λ x. ground arith;
        })
