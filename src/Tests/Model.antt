-- ===== src/Tests/Model.antt =====
-- A platform of simple functions that meets the laws: the hash reads bytes as a number, and an
-- address is the end of its seeds.
use solana_crosschain_protoc.Base.{
  ℕ, ◌+◌, ◌-◌, ◌*◌, ◌%◌, ◌^◌, ◌≤◌, ◌≡◌, inl, inr, refl, ap, subst, ◌||◌, List, [], ◌∷◌, ◌++◌,
  Option, none, some, Option-cases, Result, ok, err, runtime, ◌>>◌, check, check-eq-ok,
  ok-injective, leb→le, ◌==◌, leb, arith,
}
use solana_crosschain_protoc.Base.Bytes.{concat, be_bytes, from_be}
use solana_crosschain_protoc.Uint256.Reference.{reference, reference-U256Laws}
use solana_crosschain_protoc.Ledger.{
  fee_of, fee_of-le, TokenAccount, Ledger, balance_of, update, update_self, update_ne, store,
}
use solana_crosschain_protoc.Platform.{Platform}
use solana_crosschain_protoc.Platform.Laws.{
  Keeps, Moves, Closes, Pays, Sets, Shuts, Inits, InitsTokens, PlatformLaws,
}
use solana_crosschain_protoc.Src.Merkle.Inputs.{KeccakLaws}

abbrev pub plain_hash : List ℕ → ℕ
plain_hash bytes = from_be 0 bytes % 2 ^ 256

abbrev pub plain_hashv : List (List ℕ) → ℕ
plain_hashv slices = plain_hash (concat slices)

pub plain_hash-KeccakLaws : KeccakLaws plain_hash plain_hashv
plain_hash-KeccakLaws = record { hashv_joins = λ slices. refl; hash-lt = λ bytes. omega arith }

abbrev address_of : List (List ℕ) → ℕ
address_of seeds = from_be 0 (concat seeds) % 2 ^ 16

-- Lamports move.
abbrev with_lamports : ℕ → ℕ → Ledger → Ledger
with_lamports k n l = record l { lamports = update l.lamports k n }

abbrev with_tokens : ℕ → Option TokenAccount → Ledger → Ledger
with_tokens k t l = record l { tokens = update l.tokens k t }

abbrev with_amount : TokenAccount → ℕ → Option TokenAccount
with_amount t n = some (record t { amount = n })

abbrev pay : ℕ → ℕ → ℕ → Ledger → Result Ledger
pay from to amount l = do
  check (leb amount (l.lamports from)) (runtime 1)
  let m = with_lamports from (l.lamports from - amount) l
  ok (with_lamports to (m.lamports to + amount) m)

abbrev move : ℕ → ℕ → ℕ → ℕ → Ledger → Result Ledger
move from mint to amount l = elim (l.tokens from) [
  | none ↦ err (runtime 3012)
  | some s ↦ elim (l.tokens to) [
    | none ↦ err (runtime 3012)
    | some d ↦ do
      check (leb amount s.amount) (runtime 1)
      let m = with_tokens from (with_amount s (s.amount - amount)) l
      ok (with_tokens to (with_amount d (d.amount + (amount - fee_of l mint amount))) m)
  ]
]

abbrev close_tokens : ℕ → ℕ → Ledger → Result Ledger
close_tokens account destination l = elim (l.tokens account) [
  | none ↦ err (runtime 3012)
  | some s ↦ do
    check (s.amount == 0 || s.mint == 1) (runtime 11)
    let m = with_lamports destination (l.lamports destination + l.lamports account) l
    ok (with_tokens account none (with_lamports account 0 m))
]

abbrev take_lamports : ℕ → ℕ → Ledger → Result Ledger
take_lamports account amount l = do
  check (leb amount (l.lamports account)) (runtime 1)
  ok (with_lamports account (l.lamports account - amount) l)

abbrev put_lamports : ℕ → ℕ → Ledger → Result Ledger
put_lamports account amount l = ok (with_lamports account (l.lamports account + amount) l)

abbrev shut : ℕ → ℕ → Ledger → Result Ledger
shut account destination l =
    let m = with_lamports destination (l.lamports destination + l.lamports account) l in
    ok (store account none (with_lamports account 0 m))

abbrev init : ℕ → Ledger → Result Ledger
init account l = elim (l.accounts account) [ none ↦ ok l | some _ ↦ err (runtime 0) ]

abbrev init_tokens : ℕ → ℕ → ℕ → Ledger → Result Ledger
init_tokens account mint authority l =
    ok (with_tokens account (some (record { mint = mint; owner = authority; amount = 0 })) l)

abbrev pub model : Platform
model = record {
  u256 = reference;
  hash = plain_hash;
  hashv = plain_hashv;
  encode_auction = λ d. be_bytes 4 d.start_time ++ be_bytes 4 d.duration;
  encode_limbs =
      λ w. be_bytes 8 w.limb0 ++ be_bytes 8 w.limb1 ++ be_bytes 8 w.limb2 ++ be_bytes 8 w.limb3;
  find_program_address = λ seeds program. (address_of (seeds ++ be_bytes 1 255 ∷ []), 255);
  create_program_address = λ seeds program. some (address_of seeds);
  associated_token_address = λ wallet mint program. 2 ^ 16 + wallet * 1000 + mint;
  native_mint = 1;
  minimum_balance = λ size. size;
  system_transfer = λ from to amount seeds l. pay from to amount l;
  transfer_checked =
      λ program from mint to authority amount decimals seeds l. move from mint to amount l;
  close_account =
      λ program account destination authority seeds l. close_tokens account destination l;
  sync_native = λ program account l. ok l;
  init_account = λ payer account space program l. init account l;
  init_token_account =
      λ payer account mint authority program l. init_tokens account mint authority l;
  sub_lamports = take_lamports;
  add_lamports = put_lamports;
  close = shut;
}

pay-Pays :
    (from to amount : ℕ) (l l' : Ledger) → pay from to amount l ≡ ok l' → Pays from to amount l l'
pay-Pays from to amount l l' h =
    let (enough, q) = check-eq-ok (leb amount (l.lamports from)) _ _ h in
    let covered = leb→le amount (l.lamports from) enough in
    subst (λ m. Pays from to amount l m) (ok-injective q)
      (record {
        covered = covered;
        from_debited = λ d. ground arith;
        to_credited = λ d. ground arith;
        lamports_kept = λ k x y. ground arith;
        tokens_kept = λ k. refl;
        keeps = record { accounts_kept = λ k. refl; mints_kept = λ k. refl; clock_kept = refl };
      })

same-Keeps :
    (l : Ledger) (f : ℕ → ℕ) (g : ℕ → Option TokenAccount)
    → Keeps l (record l { lamports = f; tokens = g })
same-Keeps l f g = record { accounts_kept = λ k. refl; mints_kept = λ k. refl; clock_kept = refl }

move-Moves :
    (from mint to amount : ℕ) (l l' : Ledger)
    → move from mint to amount l ≡ ok l'
    → Moves from mint to amount l l'
move-Moves from mint to amount l l' h = elim (Option-cases (l.tokens from)) [
  | inl none_there ↦
      absurd (let bad : err (runtime 3012) ≡ ok l' = rw (move, none_there) at h in cc)
  | inr (s, e) ↦ elim (Option-cases (l.tokens to)) [
    | inl none_there ↦
        absurd (let bad : err (runtime 3012) ≡ ok l' = rw (move, e, none_there) at h in cc)
    | inr (d, e') ↦
        let (enough, q) = check-eq-ok (leb amount s.amount) _ _ (rw (move, e, e') at h) in
        let covered = leb→le amount s.amount enough in
        let at_from = ap balance_of e in
        let at_to = ap balance_of e' in
        subst (λ m. Moves from mint to amount l m) (ok-injective q)
          (record {
            covered = omega (arith, covered, at_from);
            from_debited = λ x. omega (
              arith,
              covered,
              at_from,
              ap balance_of (
                  update_ne (update l.tokens from (with_amount s (s.amount - amount))) to from
                    (with_amount d (d.amount + (amount - fee_of l mint amount))) x),
              ap balance_of (update_self l.tokens from (with_amount s (s.amount - amount))),
            );
            to_credited = λ x. omega (
              arith,
              at_to,
              ap balance_of (
                  update_self (update l.tokens from (with_amount s (s.amount - amount))) to
                    (with_amount d (d.amount + (amount - fee_of l mint amount)))),
              fee_of-le l mint amount,
            );
            others_kept = λ k x y. ground arith;
            lamports_kept = λ k x y. refl;
            keeps = same-Keeps l _ _;
          })
  ]
]

close_tokens-Closes :
    (account destination : ℕ) (l l' : Ledger)
    → close_tokens account destination l ≡ ok l'
    → Closes account destination l l'
close_tokens-Closes account destination l l' h = elim (Option-cases (l.tokens account)) [
  | inl none_there ↦
      absurd (let bad : err (runtime 3012) ≡ ok l' = rw (close_tokens, none_there) at h in cc)
  | inr (s, e) ↦
      let (may, q) = check-eq-ok (s.amount == 0 || s.mint == 1) _ _ (rw (close_tokens, e) at h) in
      subst (λ m. Closes account destination l m) (ok-injective q)
        (record {
          gone = ground arith;
          others_kept = λ k x. ground arith;
          paid = λ d. ground arith;
          drained = λ d. ground arith;
          lamports_kept = λ k x y. ground arith;
          keeps = same-Keeps l _ _;
        })
]

take-Sets :
    (account amount : ℕ) (l l' : Ledger)
    → take_lamports account amount l ≡ ok l'
    → (amount ≤ l.lamports account) × Sets account (l.lamports account - amount) l l'
take-Sets account amount l l' h =
    let (enough, q) = check-eq-ok (leb amount (l.lamports account)) _ _ h in
    (
      leb→le amount (l.lamports account) enough,
      subst (λ m. Sets account (l.lamports account - amount) l m) (ok-injective q)
          (record {
            set_to = ground arith;
            lamports_kept = λ k x. ground arith;
            tokens_kept = λ k. refl;
            keeps = same-Keeps l _ _;
          }),
    )

put-Sets :
    (account amount : ℕ) (l l' : Ledger)
    → put_lamports account amount l ≡ ok l'
    → Sets account (l.lamports account + amount) l l'
put-Sets account amount l l' h =
    subst (λ m. Sets account (l.lamports account + amount) l m) (ok-injective h)
      (record {
        set_to = ground arith;
        lamports_kept = λ k x. ground arith;
        tokens_kept = λ k. refl;
        keeps = same-Keeps l _ _;
      })

shut-Shuts :
    (account destination : ℕ) (l l' : Ledger)
    → shut account destination l ≡ ok l'
    → Shuts account destination l l'
shut-Shuts account destination l l' h =
    subst (λ m. Shuts account destination l m) (ok-injective h)
      (record {
        data_gone = ground arith;
        accounts_kept = λ k x. ground arith;
        paid = λ d. ground arith;
        drained = λ d. ground arith;
        lamports_kept = λ k x y. ground arith;
        tokens_kept = λ k. refl;
      })

init-Inits : (account : ℕ) (l l' : Ledger) → init account l ≡ ok l' → Inits account l l'
init-Inits account l l' h = elim (Option-cases (l.accounts account)) [
  | inr (s, e) ↦ absurd (let bad : err (runtime 0) ≡ ok l' = rw (init, e) at h in cc)
  | inl e ↦
      subst (λ m. Inits account l m) (ok-injective (rw (init, e) at h))
        (record {
          fresh = e;
          tokens_kept = λ k. refl;
          accounts_kept = λ k x. refl;
          mints_kept = λ k. refl;
          clock_kept = refl;
        })
]

init_tokens-InitsTokens :
    (account mint authority : ℕ) (l l' : Ledger)
    → init_tokens account mint authority l ≡ ok l'
    → InitsTokens account l l'
init_tokens-InitsTokens account mint authority l l' h =
    subst (λ m. InitsTokens account l m) (ok-injective h)
      (record { tokens_kept = λ k x. ground arith; keeps = same-Keeps l _ _ })

pub model-PlatformLaws : PlatformLaws model
model-PlatformLaws = record {
  u256_laws = reference-U256Laws;
  find_program_address_lem = λ seeds program. refl;
  system_transfer_lem = λ from to amount seeds. pay-Pays from to amount;
  transfer_checked_lem =
      λ program from mint to authority amount decimals seeds. move-Moves from mint to amount;
  close_account_lem =
      λ program account destination authority seeds. close_tokens-Closes account destination;
  sub_lamports_lem = take-Sets;
  add_lamports_lem = put-Sets;
  close_lem = shut-Shuts;
  init_account_lem = λ payer account space program. init-Inits account;
  init_token_account_lem =
      λ payer account mint authority program. init_tokens-InitsTokens account mint authority;
}
