-- ===== src/Platform.antt =====
-- What the programs call and this repository does not implement: the hash and address functions,
-- the rent, the system, token and associated-token programs, and the framework's operations on
-- lamports. Each is a parameter, a function on the ledger that may fail. A call takes the key
-- of its token program, and is taken to fail for the key of any other program.
pub mod Laws
pub mod Accounts
use solana_crosschain_protoc.Base.{ℕ, List, Option, Bool, Result}
use solana_crosschain_protoc.Uint256.{U256, U256Ops}
use solana_crosschain_protoc.Src.Auction.{AuctionData}
use solana_crosschain_protoc.Ledger.{Ledger}

pub record Platform : Type 0 where
  pub u256 : U256Ops
  -- `keccak::hash` and `keccak::hashv`
  pub hash : List ℕ → ℕ
  pub hashv : List (List ℕ) → ℕ
  -- the borsh encodings (`try_to_vec`) of an auction and of four limbs
  pub encode_auction : AuctionData → List ℕ
  pub encode_limbs : U256 → List ℕ
  -- `Pubkey::find_program_address` and `create_program_address`: seeds, then the program
  pub find_program_address : List (List ℕ) → ℕ → ℕ × ℕ
  pub create_program_address : List (List ℕ) → ℕ → Option ℕ
  -- wallet, mint, token program
  pub associated_token_address : ℕ → ℕ → ℕ → ℕ
  pub native_mint : ℕ
  -- `Rent::minimum_balance` of a size
  pub minimum_balance : ℕ → ℕ
  -- `system_program::transfer`: from, to, amount, signer seeds
  pub system_transfer : ℕ → ℕ → ℕ → Option (List (List ℕ)) → Ledger → Result Ledger
  -- `transfer_checked`: token program, from, mint, to, authority, amount, decimals, signer seeds
  pub transfer_checked : ℕ → ℕ → ℕ → ℕ → ℕ → ℕ → ℕ → Option (List (List ℕ)) → Ledger → Result Ledger
  -- `close_account`: token program, account, destination, authority, signer seeds
  pub close_account : ℕ → ℕ → ℕ → ℕ → Option (List (List ℕ)) → Ledger → Result Ledger
  -- `sync_native`: token program, account
  pub sync_native : ℕ → ℕ → Ledger → Result Ledger
  -- `#[account(init, payer, space)]`: payer, account, space, owner program
  pub init_account : ℕ → ℕ → ℕ → ℕ → Ledger → Result Ledger
  -- `init_if_needed` of an associated token account: payer, account, mint, authority, token program
  pub init_token_account : ℕ → ℕ → ℕ → ℕ → ℕ → Ledger → Result Ledger
  -- `AccountInfo::sub_lamports`, `add_lamports`: account, amount
  pub sub_lamports : ℕ → ℕ → Ledger → Result Ledger
  pub add_lamports : ℕ → ℕ → Ledger → Result Ledger
  -- `AccountsClose::close`: account, destination
  pub close : ℕ → ℕ → Ledger → Result Ledger
