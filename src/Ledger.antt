-- ===== src/Ledger.antt =====
-- The accounts that the programs read and write: lamports, token accounts and mints, and the data
-- of the programs' own accounts, under their keys; and the clock.
use solana_crosschain_protoc.Base.{
  ap, min, Option-cases, inl, inr, ◌≤◌, ℕ, ◌%◌, ◌^◌, ◌≡◌, ◌≢◌, arith, Option, none, some, ◌==◌,
  if◌then◌else◌,
}
use solana_crosschain_protoc.Src.State.{Order, EscrowSrc}
use solana_crosschain_protoc.Dst.State.{EscrowDst}
use solana_crosschain_protoc.Whitelist.State.{WhitelistState, ResolverAccess}

pub record TokenAccount : Type 0 where
  pub mint : ℕ
  pub owner : ℕ
  pub amount : ℕ

-- The data of an account that one of the three programs owns. The constructor is what the account's
-- owner and discriminator tell.
pub data AccountData : Type 0 where
  order_data : Order → AccountData
  escrow_src_data : EscrowSrc → AccountData
  escrow_dst_data : EscrowDst → AccountData
  whitelist_state_data : WhitelistState → AccountData
  resolver_access_data : ResolverAccess → AccountData

-- A mint: its decimals, and what its token program withholds of an amount that is transferred, at
-- the present epoch; that is nothing unless the mint has the transfer fee extension.
pub record Mint : Type 0 where
  pub decimals : ℕ
  pub transfer_fee : ℕ → ℕ

-- `accounts k` is `none` where the account has no data, and `unix_timestamp` the 64 bits of the
-- clock's i64.
pub record Ledger : Type 0 where
  pub lamports : ℕ → ℕ
  pub tokens : ℕ → Option TokenAccount
  pub mints : ℕ → Option Mint
  pub accounts : ℕ → Option AccountData
  pub unix_timestamp : ℕ

-- What the token account under a key holds.
abbrev pub balance_of : Option TokenAccount → ℕ
balance_of none = 0
balance_of (some t) = t.amount

abbrev pub balance : Ledger → ℕ → ℕ
balance l k = balance_of (l.tokens k)

-- The fee on a transfer, which is never more than the amount.
unfoldable pub fee_of : Ledger → ℕ → ℕ → ℕ
fee_of l mint amount = elim (l.mints mint) [
  | none ↦ 0
  | some m ↦ min (m.transfer_fee amount) amount
]

pub fee_of-le : (l : Ledger) (mint amount : ℕ) → fee_of l mint amount ≤ amount
unfolding fee_of
fee_of-le l mint amount = elim (Option-cases (l.mints mint)) [
  | inl e ↦ rw (fee_of, e) (omega arith)
  | inr (m, e) ↦ rw (fee_of, e) (omega arith)
]

-- The fee is the mint's.
pub fee_of-mints :
    (l l' : Ledger) (mint amount : ℕ)
    → l'.mints mint ≡ l.mints mint
    → fee_of l' mint amount ≡ fee_of l mint amount
unfolding fee_of
fee_of-mints l l' mint amount e =
    ap (λ (x : Option Mint). elim x [ none ↦ 0 | some m ↦ min (m.transfer_fee amount) amount ]) e

-- A table with one entry written.
abbrev pub update {ℓ} : {A : Type ℓ} → (ℕ → A) → ℕ → A → ℕ → A
update f k v j = if j == k then v else f j

pub update_self {ℓ} : {A : Type ℓ} (f : ℕ → A) (k : ℕ) (v : A) → update f k v k ≡ v
update_self f k v = ground arith

pub update_ne {ℓ} : {A : Type ℓ} (f : ℕ → A) (k j : ℕ) (v : A) → j ≢ k → update f k v j ≡ f j
update_ne f k j v h = ground arith

-- The framework writes an account's data back.
abbrev pub store : ℕ → Option AccountData → Ledger → Ledger
store k d l = record l { accounts = update l.accounts k d }

-- `common::utils::get_current_timestamp`: `unix_timestamp as u32`.
unfoldable pub get_current_timestamp : Ledger → ℕ
get_current_timestamp l = l.unix_timestamp % 2 ^ 32
