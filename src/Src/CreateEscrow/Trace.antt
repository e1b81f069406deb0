-- ===== src/Src/CreateEscrow/Trace.antt =====
-- The fills of one order on the ledger, one `create_escrow` after the other.
use solana_crosschain_protoc.Base.{
  ℕ, ◌+◌, ◌-◌, ◌/◌, ◌^◌, ◌<◌, ◌≤◌, ◌≡◌, ◌≢◌, ◌⊎◌, inl, inr, sym, ap, subst, ◌∙◌, Bool, true, none,
  some, List, [], ◌∷◌, ok, arith,
}
use native.Mathlib.Decide.{dec_lt}
use solana_crosschain_protoc.Ledger.{Ledger, order_data}
use solana_crosschain_protoc.Platform.{Platform}
use solana_crosschain_protoc.Platform.Laws.{PlatformLaws}
use solana_crosschain_protoc.Src.Auction.{AuctionData}
use solana_crosschain_protoc.Src.Merkle.{MerkleProof}
use solana_crosschain_protoc.Src.Fill.{is_valid_partial_fill}
use solana_crosschain_protoc.Src.Fill.Sequence.{
  Fill, Fills, done, fill, taken, ClimbsFrom, Fills-use_new_secrets,
}
use solana_crosschain_protoc.Src.State.{Order}
use solana_crosschain_protoc.Src.Accounts.Fill.{CreateEscrow}
use solana_crosschain_protoc.Src.CreateEscrow.{create_escrow}
use solana_crosschain_protoc.Src.CreateEscrow.Outcome.{Opened, create_escrow-Opened}

-- The fills with a proof of the order under a key, from a ledger to another. Between them anything
-- may happen that leaves the order's account as it is.
pub data Runs (p : Platform) (order : ℕ) : Ledger → List Fill → Ledger → Type 0 where
  stop : {l : Ledger} → Runs p order l [] l
  elsewhere :
      {l m l' : Ledger} {fills : List Fill}
      → m.accounts order ≡ l.accounts order
      → Runs p order m fills l'
      → Runs p order l fills l'
  run :
      {l m l' : Ledger} {fills : List Fill} (signed : ℕ → Bool) (a : CreateEscrow) (amount : ℕ)
      (proof : MerkleProof) (auction : AuctionData)
      → a.order ≡ order
      → create_escrow p signed a amount (some proof) auction l ≡ ok m
      → Runs p order m fills l'
      → Runs p order l (record { making = amount; index = proof.index } ∷ fills) l'

-- What the order's account holds when an amount remains.
abbrev pub Remains : Order → ℕ → ℕ → Ledger → Type 0
Remains o remaining order l =
    ((remaining ≡ 0) × (l.accounts order ≡ none))
    ⊎ ((0 < remaining)
        × (l.accounts order ≡ some (order_data (record o { remaining_amount = remaining }))))

abbrev parts_of : Order → ℕ
parts_of o = o.hashlock / 2 ^ 240

module _ (p : Platform) (laws : PlatformLaws p) (order : ℕ) where
  -- A fill of an order that is not there does not succeed.
  absent :
      (signed : ℕ → Bool) (a : CreateEscrow) (amount : ℕ) (proof : MerkleProof)
      (auction : AuctionData) (l m : Ledger)
      → a.order ≡ order
      → l.accounts order ≡ none
      → create_escrow p signed a amount (some proof) auction l ≢ ok m
  absent signed a amount proof auction l m at gone h =
      let (o, stored, _, _) =
        create_escrow-Opened p laws signed a amount (some proof) auction l m h in
      let bad : none ≡ some (order_data o) = sym gone ∙ ap l.accounts (sym at) ∙ stored in cc

  -- One fill: covered, accepted, and followed by what it leaves.
  step :
      (o : Order) (remaining : ℕ) (signed : ℕ → Bool) (a : CreateEscrow) (amount : ℕ)
      (proof : MerkleProof) (auction : AuctionData) (l m : Ledger)
      → o.allow_multiple_fills ≡ true
      → 0 < remaining
      → l.accounts order ≡ some (order_data (record o { remaining_amount = remaining }))
      → a.order ≡ order
      → create_escrow p signed a amount (some proof) auction l ≡ ok m
      → (amount ≤ remaining)
        × (is_valid_partial_fill amount remaining o.amount (parts_of o) proof.index ≡ ok true)
        × Remains o (remaining - amount) order m
  step o remaining signed a amount proof auction l m many some_left stored at h =
      let (o', stored', _, op') =
        create_escrow-Opened p laws signed a amount (some proof) auction l m h in
      let now = record o { remaining_amount = remaining } in
      let same : o' ≡ now =
        let both : some (order_data o') ≡ some (order_data now) =
          sym stored' ∙ ap l.accounts at ∙ stored in
        cc in
      let op = subst (λ (q : Order). Opened p laws a q amount (some proof) auction l m) same op' in
      let (covered, shown, is, _, valid, _) = op.locked.several many in
      let shown_is : shown ≡ proof = cc in
      (
        covered,
        subst
            (λ (x : MerkleProof).
              is_valid_partial_fill amount remaining o.amount (parts_of o) x.index ≡ ok true)
            shown_is valid,
        elim (dec_lt amount remaining) [
          | yes less ↦ inr (omega arith, ap m.accounts (sym at) ∙ (op.lowered many (omega arith)).1)
          | no all ↦ inl (omega arith, ap m.accounts (sym at) ∙ (op.closed (inr (omega arith))).0)
        ],
      )

  -- The fills on the ledger are fills in the sense of `Fills`.
  Runs-Fills :
      (o : Order) (remaining : ℕ) {l l' : Ledger} {fills : List Fill}
      → o.allow_multiple_fills ≡ true
      → Remains o remaining order l
      → Runs p order l fills l'
      → (final : ℕ) × Fills o.amount (parts_of o) remaining fills final × Remains o final order l'
  Runs-Fills o remaining many left stop = (remaining, done, left)
  Runs-Fills o remaining {l} {l'} {fills} many left (elsewhere {m = m} kept later) =
      Runs-Fills o remaining {l = m} {l' = l'} {fills = fills} many (rw kept left) later
  Runs-Fills o remaining {l} {l'} many (inl (none_left, gone))
        (run {m = m} signed a amount proof auction at h later) =
      absurd (absent signed a amount proof auction l m at gone h)
  Runs-Fills o remaining {l} {l'} many (inr (some_left, stored))
        (run {m = m} {fills = fs} signed a amount proof auction at h later) =
      let (covered, valid, left) =
        step o remaining signed a amount proof auction l m many some_left stored at h in
      let (final, all, last) =
        Runs-Fills o (remaining - amount) {l = m} {l' = l'} {fills = fs} many left later in
      (
        final,
        fill (record { making = amount; index = proof.index }) some_left covered valid all,
        last,
      )

  -- In any sequence of `create_escrow` calls that succeed on one order of several fills and at least
  -- one part, from the whole of a positive amount down, with anything between them that leaves the
  -- order's account as it is, the indices of the proofs strictly increase and never pass the number
  -- of parts. The amounts taken and what remains make up the order's amount: where something
  -- remains, the order's account still holds the order with that as its remaining amount, and where
  -- nothing remains the order is gone.
  pub Runs-use_new_secrets :
      (o : Order) {l l' : Ledger} {fills : List Fill}
      → o.allow_multiple_fills ≡ true
      → 0 < o.hashlock / 2 ^ 240
      → 0 < o.amount
      → l.accounts order ≡ some (order_data (record o { remaining_amount = o.amount }))
      → Runs p order l fills l'
      → ClimbsFrom (o.hashlock / 2 ^ 240) fills
        × (final : ℕ) × (taken fills + final ≡ o.amount)
        × Remains o final order l'
  Runs-use_new_secrets o many some_parts positive stored runs =
      let (final, all, last) = Runs-Fills o o.amount many (inr (positive, stored)) runs in
      let (up, sum) = Fills-use_new_secrets o.amount (parts_of o) some_parts all in
      (up, final, sum, last)
