-- ===== src/Src/Accounts.antt =====
-- programs/cross-chain-escrow-src/src/lib.rs: the accounts of each instruction, and the checks that
-- their attributes ask for. `signed` says which keys signed the transaction.
pub mod Withdraw
pub mod Cancel
pub mod Fill
use solana_crosschain_protoc.Base.{
  ℕ, Bool, List, [], ◌∷◌, Option, none, some, Result, ok, err, runtime, ◌>>=◌, ◌>>◌,
}
use solana_crosschain_protoc.Base.Bytes.{be_bytes}
use solana_crosschain_protoc.Ledger.{Ledger, order_data, escrow_src_data, resolver_access_data}
use solana_crosschain_protoc.Whitelist.State.{ResolverAccess}
use solana_crosschain_protoc.Whitelist.Ids.{whitelist_id}
use solana_crosschain_protoc.Src.State.{Order, EscrowSrc}
use solana_crosschain_protoc.Platform.{Platform}
use solana_crosschain_protoc.Platform.Accounts.{check_seeds, signer}

-- `declare_id!`, decoded from base 58.
abbrev pub src_id : ℕ
src_id = 0x18dd10f117221cff78f45c10b962dab85a7704d2a6ec72ce32cc75bed6f0e461

-- `"escrow".as_bytes()` and `"order".as_bytes()`
abbrev pub escrow_tag : List ℕ
escrow_tag = b'e' ∷ b's' ∷ b'c' ∷ b'r' ∷ b'o' ∷ b'w' ∷ []

abbrev pub order_tag : List ℕ
order_tag = b'o' ∷ b'r' ∷ b'd' ∷ b'e' ∷ b'r' ∷ []

-- The seeds of an escrow's address: order hash, hashlock, taker, amount.
unfoldable pub escrow_seeds : ℕ → ℕ → ℕ → ℕ → List (List ℕ)
escrow_seeds order_hash hashlock taker amount =
    escrow_tag
    ∷ be_bytes 32 order_hash
    ∷ be_bytes 32 hashlock
    ∷ be_bytes 32 taker
    ∷ be_bytes 8 amount
    ∷ []

unfoldable pub order_seeds : ℕ → List (List ℕ)
order_seeds order_hash = order_tag ∷ be_bytes 32 order_hash ∷ []

-- `Account<'info, EscrowSrc>`
unfoldable pub load_escrow : Ledger → ℕ → Result EscrowSrc
load_escrow l k = elim (l.accounts k) [
  | none ↦ err (runtime 3012)
  | some (escrow_src_data e) ↦ ok e
  | some _ ↦ err (runtime 3002)
]

-- `Account<'info, Order>`
unfoldable pub load_order : Ledger → ℕ → Result Order
load_order l k = elim (l.accounts k) [
  | none ↦ err (runtime 3012)
  | some (order_data o) ↦ ok o
  | some _ ↦ err (runtime 3002)
]

-- `Account<'info, ResolverAccess>`
unfoldable pub load_access : Ledger → ℕ → Result ResolverAccess
load_access l k = elim (l.accounts k) [
  | none ↦ err (runtime 3012)
  | some (resolver_access_data a) ↦ ok a
  | some _ ↦ err (runtime 3002)
]

-- A resolver that signed, with the account that the whitelist program keeps for it and this
-- program.
unfoldable pub check_resolver : Platform → (ℕ → Bool) → ℕ → ℕ → ℕ → Ledger → Result (Unit {0})
unfolding load_access
check_resolver p signed program resolver resolver_access l = do
  signer signed resolver
  access ← load_access l resolver_access
  check_seeds p resolver_access (be_bytes 32 program ∷ be_bytes 32 resolver ∷ []) access.bump
      whitelist_id
