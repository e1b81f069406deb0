-- ===== src/Platform/Laws.antt =====
-- What the documentation says of the calls, where they succeed. Nothing is said of when they do.
use solana_crosschain_protoc.Base.{
  ℕ, ◌+◌, ◌-◌, ◌≤◌, ◌≡◌, ◌≢◌, List, [], ◌∷◌, ◌++◌, Option, none, some, ok,
}
use solana_crosschain_protoc.Base.Bytes.{be_bytes}
use solana_crosschain_protoc.Uint256.{U256Laws}
use solana_crosschain_protoc.Ledger.{Ledger, balance, fee_of}
use solana_crosschain_protoc.Platform.{Platform}

-- A call of another program touches neither the data of the programs' accounts nor the mints nor
-- the clock.
pub record Keeps (l l' : Ledger) : Type 0 where
  pub accounts_kept : (k : ℕ) → l'.accounts k ≡ l.accounts k
  pub mints_kept : (k : ℕ) → l'.mints k ≡ l.mints k
  pub clock_kept : l'.unix_timestamp ≡ l.unix_timestamp

-- Tokens have moved between two accounts, less the fee that the mint's program withholds. A transfer
-- of wrapped lamports moves those too.
pub record Moves (from mint to amount : ℕ) (l l' : Ledger) : Type 0 where
  pub covered : amount ≤ balance l from
  pub from_debited : from ≢ to → balance l' from + amount ≡ balance l from
  pub to_credited : from ≢ to → balance l' to + fee_of l mint amount ≡ balance l to + amount
  pub others_kept : (k : ℕ) → k ≢ from → k ≢ to → l'.tokens k ≡ l.tokens k
  pub lamports_kept : (k : ℕ) → k ≢ from → k ≢ to → l'.lamports k ≡ l.lamports k
  pub keeps : Keeps l l'

-- A token account is gone, and its lamports are at the destination.
pub record Closes (account destination : ℕ) (l l' : Ledger) : Type 0 where
  pub gone : l'.tokens account ≡ none
  pub others_kept : (k : ℕ) → k ≢ account → l'.tokens k ≡ l.tokens k
  pub paid :
      account ≢ destination → l'.lamports destination ≡ l.lamports destination + l.lamports account
  pub drained : account ≢ destination → l'.lamports account ≡ 0
  pub lamports_kept : (k : ℕ) → k ≢ account → k ≢ destination → l'.lamports k ≡ l.lamports k
  pub keeps : Keeps l l'

-- Lamports have moved.
pub record Pays (from to amount : ℕ) (l l' : Ledger) : Type 0 where
  pub covered : amount ≤ l.lamports from
  pub from_debited : from ≢ to → l'.lamports from + amount ≡ l.lamports from
  pub to_credited : from ≢ to → l'.lamports to ≡ l.lamports to + amount
  pub lamports_kept : (k : ℕ) → k ≢ from → k ≢ to → l'.lamports k ≡ l.lamports k
  pub tokens_kept : (k : ℕ) → l'.tokens k ≡ l.tokens k
  pub keeps : Keeps l l'

-- One account's lamports have changed to a given number, and nothing else.
pub record Sets (account amount : ℕ) (l l' : Ledger) : Type 0 where
  pub set_to : l'.lamports account ≡ amount
  pub lamports_kept : (k : ℕ) → k ≢ account → l'.lamports k ≡ l.lamports k
  pub tokens_kept : (k : ℕ) → l'.tokens k ≡ l.tokens k
  pub keeps : Keeps l l'

-- A program account is closed: no data, no lamports, which are at the destination.
pub record Shuts (account destination : ℕ) (l l' : Ledger) : Type 0 where
  pub data_gone : l'.accounts account ≡ none
  pub accounts_kept : (k : ℕ) → k ≢ account → l'.accounts k ≡ l.accounts k
  pub paid :
      account ≢ destination → l'.lamports destination ≡ l.lamports destination + l.lamports account
  pub drained : account ≢ destination → l'.lamports account ≡ 0
  pub lamports_kept : (k : ℕ) → k ≢ account → k ≢ destination → l'.lamports k ≡ l.lamports k
  pub tokens_kept : (k : ℕ) → l'.tokens k ≡ l.tokens k

-- A program account is new: it had no data, and no other has changed, nor any token account, mint or
-- clock.
pub record Inits (account : ℕ) (l l' : Ledger) : Type 0 where
  pub fresh : l.accounts account ≡ none
  pub tokens_kept : (k : ℕ) → l'.tokens k ≡ l.tokens k
  pub accounts_kept : (k : ℕ) → k ≢ account → l'.accounts k ≡ l.accounts k
  pub mints_kept : (k : ℕ) → l'.mints k ≡ l.mints k
  pub clock_kept : l'.unix_timestamp ≡ l.unix_timestamp

-- A token account is new. Lamports that its key had before may be its first tokens.
pub record InitsTokens (account : ℕ) (l l' : Ledger) : Type 0 where
  pub tokens_kept : (k : ℕ) → k ≢ account → l'.tokens k ≡ l.tokens k
  pub keeps : Keeps l l'

pub record PlatformLaws (p : Platform) : Type 0 where
  pub u256_laws : U256Laws p.u256
  -- The address found is the one that the seeds with the bump found create.
  pub find_program_address_lem :
      (seeds : List (List ℕ)) (program : ℕ)
      → p.create_program_address
          (seeds ++ be_bytes 1 (p.find_program_address seeds program).1 ∷ [])
          program
        ≡ some (p.find_program_address seeds program).0
  pub system_transfer_lem :
      (from to amount : ℕ) (seeds : Option (List (List ℕ))) (l l' : Ledger)
      → p.system_transfer from to amount seeds l ≡ ok l'
      → Pays from to amount l l'
  pub transfer_checked_lem :
      (program from mint to authority amount decimals : ℕ) (seeds : Option (List (List ℕ)))
      (l l' : Ledger)
      → p.transfer_checked program from mint to authority amount decimals seeds l ≡ ok l'
      → Moves from mint to amount l l'
  pub close_account_lem :
      (program account destination authority : ℕ) (seeds : Option (List (List ℕ))) (l l' : Ledger)
      → p.close_account program account destination authority seeds l ≡ ok l'
      → Closes account destination l l'
  pub sub_lamports_lem :
      (account amount : ℕ) (l l' : Ledger)
      → p.sub_lamports account amount l ≡ ok l'
      → (amount ≤ l.lamports account) × Sets account (l.lamports account - amount) l l'
  pub add_lamports_lem :
      (account amount : ℕ) (l l' : Ledger)
      → p.add_lamports account amount l ≡ ok l'
      → Sets account (l.lamports account + amount) l l'
  pub close_lem :
      (account destination : ℕ) (l l' : Ledger)
      → p.close account destination l ≡ ok l'
      → Shuts account destination l l'
  pub init_account_lem :
      (payer account space program : ℕ) (l l' : Ledger)
      → p.init_account payer account space program l ≡ ok l'
      → Inits account l l'
  pub init_token_account_lem :
      (payer account mint authority program : ℕ) (l l' : Ledger)
      → p.init_token_account payer account mint authority program l ≡ ok l'
      → InitsTokens account l l'
