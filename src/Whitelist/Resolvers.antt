-- ===== src/Whitelist/Resolvers.antt =====
-- What the list means to the programs that read it: `check_resolver` of the source program, which
-- the public instructions run on a resolver's account.
use solana_crosschain_protoc.Base.{
  ℕ, ◌+◌, ◌≡◌, refl, subst, Bool, true, List, [], ◌∷◌, some, ok, err, runtime, ◌==◌, not, >>=-eq-ok,
  check-eq-ok, ok-injective, eq→==,
}
use solana_crosschain_protoc.Base.Bytes.{be_bytes}
use solana_crosschain_protoc.Ledger.{Ledger, resolver_access_data, update_self}
use solana_crosschain_protoc.Platform.{Platform}
use solana_crosschain_protoc.Platform.Laws.{PlatformLaws}
use solana_crosschain_protoc.Platform.Accounts.{check_seeds, find_bump}
use solana_crosschain_protoc.Common.Constants.{discriminator_bytes}
use solana_crosschain_protoc.Src.Accounts.{load_access, check_resolver}
use solana_crosschain_protoc.Whitelist.State.{ResolverAccess, resolver_access_space}
use solana_crosschain_protoc.Whitelist.Ids.{whitelist_id}
use solana_crosschain_protoc.Whitelist.{
  Register, Deregister, access_seeds, load_authority, register, deregister,
}
use solana_crosschain_protoc.Whitelist.Authority.{find_bump-eq}

module _ (p : Platform) (laws : PlatformLaws p) where
  -- The address that the found bump gives passes the check with the stored one.
  check_seeds-found :
      (k : ℕ) (seeds : List (List ℕ)) (program : ℕ) {bump : ℕ}
      → find_bump p k seeds program ≡ ok bump
      → check_seeds p k seeds bump program ≡ ok tt
  unfolding check_seeds
  check_seeds-found k seeds program {bump} h =
      let (at, b) = find_bump-eq p k seeds program h in
      rw (b, check_seeds, laws.find_program_address_lem seeds program, eq→== k _ at) refl

  -- After a user is registered for a client program, that program accepts the user as a resolver
  -- with the new account, wherever the user signs.
  pub register-check_resolver :
      (signed signed' : ℕ → Bool) (a : Register) (user client_program : ℕ) (l l' : Ledger)
      → register p signed a user client_program l ≡ ok l'
      → signed' user ≡ true
      → check_resolver p signed' client_program user a.resolver_access l' ≡ ok tt
  unfolding register check_resolver
  register-check_resolver signed signed' a user client_program l l' h sig =
      let (_, e, h₁) = >>=-eq-ok (load_authority p signed a.authority a.whitelist_state l) _ h in
      let (bump, b, h₂) =
        >>=-eq-ok (find_bump p a.resolver_access (access_seeds client_program user) whitelist_id) _
          h₁ in
      let (m, e', q) =
        >>=-eq-ok
          (p.init_account a.authority a.resolver_access
            (discriminator_bytes + resolver_access_space) whitelist_id l)
          _ h₂ in
      let access : ResolverAccess = record { bump = bump } in
      let held : l'.accounts a.resolver_access ≡ some (resolver_access_data access) =
        subst (λ (n : Ledger). n.accounts a.resolver_access ≡ some (resolver_access_data access))
          (ok-injective q)
          (update_self m.accounts a.resolver_access (some (resolver_access_data access))) in
      let passed : check_seeds p a.resolver_access
            (be_bytes 32 client_program ∷ be_bytes 32 user ∷ []) bump whitelist_id
          ≡ ok tt =
        unfold access_seeds in
        check_seeds-found a.resolver_access (access_seeds client_program user) whitelist_id b in
      rw (sig, load_access, held, passed)

  -- After a user is taken off the list, no program accepts the account that was closed for anyone.
  pub deregister-check_resolver :
      (signed signed' : ℕ → Bool) (a : Deregister) (user client_program resolver program : ℕ)
      (l l' : Ledger)
      → deregister p signed a user client_program l ≡ ok l'
      → signed' resolver ≡ true
      → check_resolver p signed' program resolver a.resolver_access l' ≡ err (runtime 3012)
  unfolding deregister check_resolver load_access
  deregister-check_resolver signed signed' a user client_program resolver program l l' h sig =
      let (_, e, h₁) = >>=-eq-ok (load_authority p signed a.authority a.whitelist_state l) _ h in
      let (access, e', h₁') = >>=-eq-ok (load_access l a.resolver_access) _ h₁ in
      let (_, h₂) = check-eq-ok (not (a.resolver_access == a.authority)) _ _ h₁' in
      let (_, _, q) =
        >>=-eq-ok
          (check_seeds p a.resolver_access (access_seeds client_program user) access.bump
            whitelist_id)
          _ h₂ in
      let shut = laws.close_lem a.resolver_access a.authority l l' q in
      rw (sig, load_access, shut.data_gone)
