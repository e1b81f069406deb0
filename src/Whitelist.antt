-- ===== src/Whitelist.antt =====
-- programs/whitelist/src/lib.rs: the list of the resolvers that may act for others. The authority
-- of the list adds and removes them, one account for each resolver and each client program.
pub mod State
pub mod Ids
pub mod Authority
pub mod Resolvers
use solana_crosschain_protoc.Base.{
  ℕ, ◌+◌, Bool, List, [], ◌∷◌, none, some, Result, ok, err, runtime, ◌>>=◌, ◌>>◌, ◌==◌, not, check,
  whitelist_error, unauthorized,
}
use solana_crosschain_protoc.Base.Bytes.{be_bytes}
use solana_crosschain_protoc.Ledger.{Ledger, whitelist_state_data, resolver_access_data, store}
use solana_crosschain_protoc.Platform.{Platform}
use solana_crosschain_protoc.Platform.Accounts.{signer, check_seeds, find_bump}
use solana_crosschain_protoc.Common.Constants.{discriminator_bytes}
use solana_crosschain_protoc.Whitelist.State.{
  WhitelistState, ResolverAccess, whitelist_state_space, resolver_access_space,
}
use solana_crosschain_protoc.Whitelist.Ids.{whitelist_id, whitelist_state_seed}
use solana_crosschain_protoc.Src.Accounts.{load_access}

pub record Initialize : Type 0 where
  pub authority : ℕ
  pub whitelist_state : ℕ

pub record Register : Type 0 where
  pub authority : ℕ
  pub whitelist_state : ℕ
  pub resolver_access : ℕ

pub record Deregister : Type 0 where
  pub authority : ℕ
  pub whitelist_state : ℕ
  pub resolver_access : ℕ

pub record SetAuthority : Type 0 where
  pub current_authority : ℕ
  pub whitelist_state : ℕ

-- `Account<'info, WhitelistState>`
unfoldable pub load_state : Ledger → ℕ → Result WhitelistState
load_state l k = elim (l.accounts k) [
  | none ↦ err (runtime 3012)
  | some (whitelist_state_data s) ↦ ok s
  | some _ ↦ err (runtime 3002)
]

-- `[client_program.key().as_ref(), user.key().as_ref()]`
unfoldable pub access_seeds : ℕ → ℕ → List (List ℕ)
access_seeds client_program user = be_bytes 32 client_program ∷ be_bytes 32 user ∷ []

module _ (p : Platform) (signed : ℕ → Bool) where
  -- What `register`, `deregister` and `set_authority` ask of the state and of who signs.
  unfoldable pub load_authority : ℕ → ℕ → Ledger → Result (Unit {0})
  load_authority authority whitelist_state l = do
    signer signed authority
    state ← load_state l whitelist_state
    bump ← find_bump p whitelist_state (whitelist_state_seed ∷ []) whitelist_id
    check (state.authority == authority) (whitelist_error unauthorized)

  unfoldable pub initialize : Initialize → Ledger → Result Ledger
  initialize a l = do
    signer signed a.authority
    bump ← find_bump p a.whitelist_state (whitelist_state_seed ∷ []) whitelist_id
    l₁ ←
        p.init_account a.authority a.whitelist_state (discriminator_bytes + whitelist_state_space)
          whitelist_id l
    ok (
        store a.whitelist_state (some (whitelist_state_data (record { authority = a.authority })))
          l₁)

  unfoldable pub register : Register → ℕ → ℕ → Ledger → Result Ledger
  register a user client_program l = do
    load_authority a.authority a.whitelist_state l
    bump ← find_bump p a.resolver_access (access_seeds client_program user) whitelist_id
    l₁ ←
        p.init_account a.authority a.resolver_access (discriminator_bytes + resolver_access_space)
          whitelist_id l
    ok (store a.resolver_access (some (resolver_access_data (record { bump = bump }))) l₁)

  unfoldable pub deregister : Deregister → ℕ → ℕ → Ledger → Result Ledger
  deregister a user client_program l = do
    load_authority a.authority a.whitelist_state l
    access ← load_access l a.resolver_access
    check (not (a.resolver_access == a.authority)) (runtime 2011)
    check_seeds p a.resolver_access (access_seeds client_program user) access.bump whitelist_id
    p.close a.resolver_access a.authority l

  unfoldable pub set_authority : SetAuthority → ℕ → Ledger → Result Ledger
  set_authority a new_authority l = do
    load_authority a.current_authority a.whitelist_state l
    ok (
        store a.whitelist_state (some (whitelist_state_data (record { authority = new_authority })))
          l)
