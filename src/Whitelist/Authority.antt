-- ===== src/Whitelist/Authority.antt =====
-- Who may change the list: every instruction that succeeds is signed by the stored authority.
use solana_crosschain_protoc.Base.{
  ℕ, ◌+◌, ◌≡◌, ◌≢◌, ◌⊎◌, inl, inr, refl, sym, ap, subst, ◌∙◌, Bool, true, List, [], ◌∷◌, some,
  Result, ok, ◌==◌, not, >>=-eq-ok, check-eq-ok, check-true, ok-injective, ==→eq, arith,
}
use solana_crosschain_protoc.Ledger.{
  Ledger, whitelist_state_data, resolver_access_data, update, update_self, update_ne,
}
use solana_crosschain_protoc.Platform.{Platform}
use solana_crosschain_protoc.Platform.Laws.{PlatformLaws}
use solana_crosschain_protoc.Platform.Accounts.{check_seeds, find_bump}
use solana_crosschain_protoc.Common.Constants.{discriminator_bytes}
use solana_crosschain_protoc.Src.Accounts.{load_access}
use solana_crosschain_protoc.Src.Settle.Loads.{load_access-eq}
use solana_crosschain_protoc.Whitelist.State.{
  WhitelistState, whitelist_state_space, resolver_access_space,
}
use solana_crosschain_protoc.Whitelist.Ids.{whitelist_id, whitelist_state_seed}
use solana_crosschain_protoc.Whitelist.{
  Initialize, Register, Deregister, SetAuthority, load_state, access_seeds, load_authority,
  initialize, register, deregister, set_authority,
}

-- A call of the program, with its arguments.
pub data Instruction : Type 0 where
  initialize_call : Initialize → Instruction
  register_call : Register → ℕ → ℕ → Instruction
  deregister_call : Deregister → ℕ → ℕ → Instruction
  set_authority_call : SetAuthority → ℕ → Instruction

pub load_state-eq :
    (l : Ledger) (k : ℕ) {s : WhitelistState}
    → load_state l k ≡ ok s
    → l.accounts k ≡ some (whitelist_state_data s)
unfolding load_state
load_state-eq l k h = ground arith

module _ (p : Platform) where
  unfoldable pub run : (ℕ → Bool) → Instruction → Ledger → Result Ledger
  run signed (initialize_call a) l = initialize p signed a l
  run signed (register_call a user client) l = register p signed a user client l
  run signed (deregister_call a user client) l = deregister p signed a user client l
  run signed (set_authority_call a new) l = set_authority p signed a new l

  -- The address of the state.
  abbrev pub state_address : ℕ
  state_address = (p.find_program_address (whitelist_state_seed ∷ []) whitelist_id).0

  pub find_bump-eq :
      (k : ℕ) (seeds : List (List ℕ)) (program : ℕ) {bump : ℕ}
      → find_bump p k seeds program ≡ ok bump
      → (k ≡ (p.find_program_address seeds program).0)
        × (bump ≡ (p.find_program_address seeds program).1)
  unfolding find_bump
  find_bump-eq k seeds program h =
      let (same, q) = check-eq-ok (k == (p.find_program_address seeds program).0) _ _ h in
      (==→eq k _ same, sym (ok-injective q))

  pub load_authority-signed :
      (signed : ℕ → Bool) (authority k : ℕ) (l : Ledger) {u : Unit {0}}
      → load_authority p signed authority k l ≡ ok u
      → (signed authority ≡ true)
        × (k ≡ state_address)
        × (l.accounts k ≡ some (whitelist_state_data (record { authority = authority })))
  unfolding load_authority
  load_authority-signed signed authority k l h =
      let (s, h₁) = check-eq-ok (signed authority) _ _ h in
      let (state, e, h₂) = >>=-eq-ok (load_state l k) _ h₁ in
      let (bump, b, h₃) = >>=-eq-ok (find_bump p k (whitelist_state_seed ∷ []) whitelist_id) _ h₂ in
      let same = check-true (state.authority == authority) _ h₃ in
      (
        s,
        (find_bump-eq k (whitelist_state_seed ∷ []) whitelist_id b).0,
        subst (λ x. l.accounts k ≡ some (whitelist_state_data (record { authority = x })))
            (==→eq state.authority authority same) (load_state-eq l k e),
      )

  -- One instruction, taken apart: who signed, and what the state is afterwards.
  abbrev Outcome : (ℕ → Bool) → Instruction → WhitelistState → Ledger → Type 0
  Outcome signed i s l' =
      (signed s.authority ≡ true)
      × (s' : WhitelistState) × (l'.accounts state_address ≡ some (whitelist_state_data s'))
      × ((s' ≡ s)
          ⊎ ((a : SetAuthority) × (new : ℕ) × (i ≡ set_authority_call a new)
              × (s'.authority ≡ new)))

  module _ (laws : PlatformLaws p) (signed : ℕ → Bool) (l l' : Ledger) (s : WhitelistState)
      (stored : l.accounts state_address ≡ some (whitelist_state_data s)) where
    -- The authority that an instruction names is the stored one.
    same_authority :
        (authority k : ℕ) {u : Unit {0}}
        → load_authority p signed authority k l ≡ ok u
        → (signed s.authority ≡ true) × (k ≡ state_address)
    same_authority authority k h =
        let (sig, at, held) = load_authority-signed signed authority k l h in
        let same : record { authority = authority } ≡ s = cc (stored, held, ap l.accounts at) in
        (subst (λ (x : WhitelistState). signed x.authority ≡ true) same sig, at)

    initialize-fails : (a : Initialize) → initialize p signed a l ≢ ok l'
    unfolding initialize
    initialize-fails a h =
        let (sig, h₁) = check-eq-ok (signed a.authority) _ _ h in
        let (bump, b, h₂) =
          >>=-eq-ok (find_bump p a.whitelist_state (whitelist_state_seed ∷ []) whitelist_id) _ h₁ in
        let (m, e, q) =
          >>=-eq-ok
            (p.init_account a.authority a.whitelist_state
              (discriminator_bytes + whitelist_state_space) whitelist_id l)
            _ h₂ in
        let new =
          laws.init_account_lem a.authority a.whitelist_state
            (discriminator_bytes + whitelist_state_space) whitelist_id l m e in
        let at = (find_bump-eq a.whitelist_state (whitelist_state_seed ∷ []) whitelist_id b).0 in
        cc (stored, new.fresh, ap l.accounts at)

    register-Outcome :
        (a : Register) (user client : ℕ)
        → register p signed a user client l ≡ ok l'
        → Outcome signed (register_call a user client) s l'
    unfolding register
    register-Outcome a user client h =
        let (_, e, h₁) = >>=-eq-ok (load_authority p signed a.authority a.whitelist_state l) _ h in
        let (bump, b, h₂) =
          >>=-eq-ok (find_bump p a.resolver_access (access_seeds client user) whitelist_id) _ h₁ in
        let (m, e', q) =
          >>=-eq-ok
            (p.init_account a.authority a.resolver_access
              (discriminator_bytes + resolver_access_space) whitelist_id l)
            _ h₂ in
        let new =
          laws.init_account_lem a.authority a.resolver_access
            (discriminator_bytes + resolver_access_space) whitelist_id l m e' in
        let apart : state_address ≢ a.resolver_access =
          λ x. cc (stored, new.fresh, ap l.accounts x) in
        let kept =
          update_ne m.accounts a.resolver_access state_address
            (some (resolver_access_data (record { bump = bump }))) apart in
        (
          (same_authority a.authority a.whitelist_state e).0,
          s,
          subst (λ (n : Ledger). n.accounts state_address ≡ some (whitelist_state_data s))
              (ok-injective q) (kept ∙ new.accounts_kept state_address apart ∙ stored),
          inl refl,
        )

    deregister-Outcome :
        (a : Deregister) (user client : ℕ)
        → deregister p signed a user client l ≡ ok l'
        → Outcome signed (deregister_call a user client) s l'
    unfolding deregister
    deregister-Outcome a user client h =
        let (_, e, h₁) = >>=-eq-ok (load_authority p signed a.authority a.whitelist_state l) _ h in
        let (access, e', h₁') = >>=-eq-ok (load_access l a.resolver_access) _ h₁ in
        let (_, h₂) = check-eq-ok (not (a.resolver_access == a.authority)) _ _ h₁' in
        let (_, _, q) =
          >>=-eq-ok
            (check_seeds p a.resolver_access (access_seeds client user) access.bump whitelist_id) _
            h₂ in
        let shut = laws.close_lem a.resolver_access a.authority l l' q in
        let held = load_access-eq l a.resolver_access e' in
        let apart : state_address ≢ a.resolver_access = λ x. cc (stored, held, ap l.accounts x) in
        (
          (same_authority a.authority a.whitelist_state e).0,
          s,
          shut.accounts_kept state_address apart ∙ stored,
          inl refl,
        )

    set_authority-Outcome :
        (a : SetAuthority) (new : ℕ)
        → set_authority p signed a new l ≡ ok l'
        → Outcome signed (set_authority_call a new) s l'
    unfolding set_authority
    set_authority-Outcome a new h =
        let (_, e, q) =
          >>=-eq-ok (load_authority p signed a.current_authority a.whitelist_state l) _ h in
        let (sig, at) = same_authority a.current_authority a.whitelist_state e in
        let next : WhitelistState = record { authority = new } in
        (
          sig,
          next,
          subst (λ (n : Ledger). n.accounts state_address ≡ some (whitelist_state_data next))
              (ok-injective q)
              (subst
                (λ x.
                  update l.accounts a.whitelist_state (some (whitelist_state_data next)) x
                  ≡ some (whitelist_state_data next))
                at (update_self l.accounts a.whitelist_state (some (whitelist_state_data next)))),
          inr (a, new, refl, refl),
        )

  -- Where the program has its state, an instruction that succeeds was signed by the authority that
  -- the state names; the state is there afterwards, and names the same authority, unless the
  -- instruction is `set_authority`, which has set it to its argument.
  pub run-signed :
      PlatformLaws p
      → (signed : ℕ → Bool) (i : Instruction) (l l' : Ledger) (s : WhitelistState)
      → l.accounts state_address ≡ some (whitelist_state_data s)
      → run signed i l ≡ ok l'
      → (signed s.authority ≡ true)
        × (s' : WhitelistState) × (l'.accounts state_address ≡ some (whitelist_state_data s'))
        × ((s' ≡ s)
            ⊎ ((a : SetAuthority) × (new : ℕ) × (i ≡ set_authority_call a new)
                × (s'.authority ≡ new)))
  unfolding run
  run-signed laws signed (initialize_call a) l l' s stored h =
      absurd (initialize-fails laws signed l l' s stored a h)
  run-signed laws signed (register_call a user client) l l' s stored h =
      register-Outcome laws signed l l' s stored a user client h
  run-signed laws signed (deregister_call a user client) l l' s stored h =
      deregister-Outcome laws signed l l' s stored a user client h
  run-signed laws signed (set_authority_call a new) l l' s stored h =
      set_authority-Outcome laws signed l l' s stored a new h
