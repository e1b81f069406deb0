-- ===== src/Dst/Rescued.antt =====
-- When the funds of an escrow on the destination side can be rescued.
use solana_crosschain_protoc.Base.{
  ℕ, ◌+◌, ◌≤◌, ◌≡◌, sym, subst, ◌∙◌, Bool, true, [], ◌∷◌, ◌++◌, ◌>>=◌, some, ok, >>=-eq-ok,
  check-eq-ok, checked_add32, require-eq-ok, ok-injective, leb→le, leb, arith, checked_add32_eq,
}
use solana_crosschain_protoc.Base.Bytes.{be_bytes}
use solana_crosschain_protoc.Uint256.{IsU256}
use solana_crosschain_protoc.Ledger.{Ledger, escrow_dst_data, get_current_timestamp}
use solana_crosschain_protoc.Platform.{Platform}
use solana_crosschain_protoc.Platform.Laws.{PlatformLaws}
use solana_crosschain_protoc.Platform.Accounts.{MintInfo, TokenInfo}
use solana_crosschain_protoc.Common.Constants.{rescue_delay}
use solana_crosschain_protoc.Common.Timelocks.{
  Timelocks, get_timelocks, rescue_start, set_deployed_at, dst_cancellation,
}
use solana_crosschain_protoc.Common.Timelocks.Fields.{get-set_deployed_at}
use solana_crosschain_protoc.Common.Escrow.{Seeds, rescue_funds}
use solana_crosschain_protoc.Src.Accounts.{escrow_seeds}
use solana_crosschain_protoc.Dst.State.{EscrowDst}
use solana_crosschain_protoc.Dst.Accounts.{Create, RescueFunds, load_rescue_funds, load_escrow_dst}
use solana_crosschain_protoc.Dst.{
  CreateArgs, timelocks_of, new_escrow, create, escrow_rescue_start, rescue_escrow_funds,
}
use solana_crosschain_protoc.Dst.Created.{create-Created}

module _ (p : Platform) where
  rescue_funds-late :
      (escrow start : ℕ) (ata : TokenInfo) (recipient to : ℕ) (mint : MintInfo) (program amount : ℕ)
      (seeds : Seeds) (l l' : Ledger)
      → rescue_funds p escrow (some start) ata recipient to mint program amount seeds l ≡ ok l'
      → start ≤ get_current_timestamp l
  unfolding rescue_funds
  rescue_funds-late escrow start ata recipient to mint program amount seeds l l' h =
      leb→le start (get_current_timestamp l)
        (require-eq-ok (leb start (get_current_timestamp l)) _ _ h).0

  -- While an escrow on the destination side is open, a rescue of its funds that succeeds was signed
  -- by the creator, at or after the rescue time of the escrow's timelocks.
  pub rescue_escrow_funds-late :
      (signed : ℕ → Bool) (a : RescueFunds) (order_hash hashlock escrow_amount rescue_amount : ℕ)
      (l l' : Ledger) (e : EscrowDst)
      → l.accounts a.escrow ≡ some (escrow_dst_data e)
      → rescue_escrow_funds p signed a order_hash hashlock escrow_amount rescue_amount l ≡ ok l'
      → (start : ℕ) × (rescue_start p.u256 (timelocks_of e) rescue_delay ≡ ok start)
        × (start ≤ get_current_timestamp l)
        × (signed a.creator ≡ true)
  unfolding rescue_escrow_funds load_rescue_funds escrow_rescue_start load_escrow_dst
  rescue_escrow_funds-late signed a order_hash hashlock escrow_amount rescue_amount l l' e stored
        h =
      let (c, loaded, h₁) =
        >>=-eq-ok (load_rescue_funds p signed a order_hash hashlock escrow_amount l) _ h in
      let (o, e₁, h₂) = >>=-eq-ok (escrow_rescue_start p signed a.escrow l) _ h₁ in
      let (sig, _) = check-eq-ok (signed a.creator) _ _ loaded in
      let e₂ : (rescue_start p.u256 (timelocks_of e) rescue_delay >>= λ start. ok (some start))
          ≡ ok o =
        rw (escrow_rescue_start, stored, load_escrow_dst, stored) at e₁ in
      let (start, read, q) = >>=-eq-ok (rescue_start p.u256 (timelocks_of e) rescue_delay) _ e₂ in
      let late : rescue_funds p a.escrow (some start) c.escrow_ata a.creator c.creator_ata.key
            c.mint a.token_program rescue_amount
            (escrow_seeds order_hash hashlock a.creator escrow_amount ++ be_bytes 1 c.bump ∷ []) l
          ≡ ok l' =
        subst
          (λ x.
            rescue_funds p a.escrow x c.escrow_ata a.creator c.creator_ata.key c.mint
              a.token_program rescue_amount
              (escrow_seeds order_hash hashlock a.creator escrow_amount ++ be_bytes 1 c.bump ∷ []) l
            ≡ ok l')
          (sym (ok-injective q)) h₂ in
      (
        start,
        read,
        rescue_funds-late a.escrow start c.escrow_ata a.creator c.creator_ata.key c.mint
            a.token_program rescue_amount
            (escrow_seeds order_hash hashlock a.creator escrow_amount ++ be_bytes 1 c.bump ∷ []) l
            l' late,
        sig,
      )

module _ (p : Platform) (laws : PlatformLaws p) where
  -- Funds put into an escrow on the destination side are safe from rescue for the rescue delay:
  -- where `create` succeeds, and a rescue from that escrow succeeds at a time when the escrow is
  -- stored as `create` left it, the delay lies between the two clocks.
  pub create-rescue_delay :
      (signed signed' : ℕ → Bool) (a : Create) (args : CreateArgs) (r : RescueFunds)
      (order_hash hashlock escrow_amount rescue_amount : ℕ) (l l' m m' : Ledger)
      → IsU256 args.timelocks
      → create p signed a args l ≡ ok l'
      → m.accounts r.escrow ≡ l'.accounts a.escrow
      → rescue_escrow_funds p signed' r order_hash hashlock escrow_amount rescue_amount m ≡ ok m'
      → get_current_timestamp l + rescue_delay ≤ get_current_timestamp m
  unfolding get_current_timestamp new_escrow get_timelocks
  create-rescue_delay signed signed' a args r order_hash hashlock escrow_amount rescue_amount l l' m
        m' fits h same h' =
      let now = get_current_timestamp l in
      let t : Timelocks = record { word = args.timelocks } in
      let new = create-Created p laws signed a args l l' h in
      let (start, read, late, sig) =
        rescue_escrow_funds-late p signed' r order_hash hashlock escrow_amount rescue_amount m m'
          (new_escrow a args (set_deployed_at p.u256 t now) new.bump) (same ∙ new.stored) h' in
      let round =
        (get-set_deployed_at p.u256 laws.u256_laws t now dst_cancellation rescue_delay fits
          (omega arith)).1 in
      let sum : checked_add32 now rescue_delay ≡ ok start =
        sym round ∙ unfold new_escrow get_timelocks in read in
      omega (arith, late, checked_add32_eq now rescue_delay sum)
