-- ===== src/Platform/Accounts.antt =====
-- What the `#[account(…)]` attributes of the programs ask of the accounts of a call, one function
-- for each kind of attribute; the errors are the framework's codes.
pub mod Facts
use solana_crosschain_protoc.Base.{
  ℕ, Bool, true, false, List, [], ◌∷◌, ◌++◌, Option, none, some, Result, ok, err, runtime, ◌>>=◌,
  ◌>>◌, check, ◌==◌,
}
use solana_crosschain_protoc.Base.Bytes.{be_bytes}
use solana_crosschain_protoc.Ledger.{TokenAccount, Ledger}
use solana_crosschain_protoc.Platform.{Platform}

-- An account of type `Mint` and one of type `TokenAccount`, as read at the start of the call.
pub record MintInfo : Type 0 where
  pub key : ℕ
  pub decimals : ℕ

pub record TokenInfo : Type 0 where
  pub key : ℕ
  pub amount : ℕ

abbrev pub load_mint : Ledger → ℕ → Result MintInfo
load_mint l k = elim (l.mints k) [
  | none ↦ err (runtime 3012)
  | some m ↦ ok (record { key = k; decimals = m.decimals })
]

-- `Signer<'info>`
abbrev pub signer : (ℕ → Bool) → ℕ → Result (Unit {0})
signer signed k = check (signed k) (runtime 3010)

module _ (p : Platform) where
  -- `associated_token::mint`, `::authority` and `::token_program`
  unfoldable pub load_associated : Ledger → ℕ → ℕ → ℕ → ℕ → Result TokenInfo
  load_associated l k mint authority token_program = elim (l.tokens k) [
    | none ↦ err (runtime 3012)
    | some t ↦ do
      check (t.owner == authority) (runtime 2015)
      check (t.mint == mint) (runtime 2014)
      check (k == p.associated_token_address authority mint token_program) (runtime 2009)
      ok (record { key = k; amount = t.amount })
  ]

  -- The same, of an optional account.
  unfoldable pub load_optional : Ledger → Option ℕ → ℕ → ℕ → ℕ → Result (Option TokenInfo)
  unfolding load_associated
  load_optional l none mint authority token_program = ok none
  load_optional l (some k) mint authority token_program = do
    t ← load_associated l k mint authority token_program
    ok (some t)

  -- `init_if_needed` of an associated token account that `payer` pays for.
  unfoldable pub init_associated : Ledger → ℕ → ℕ → ℕ → ℕ → ℕ → Result (TokenInfo × Ledger)
  unfolding load_associated
  init_associated l payer k mint authority token_program = elim (l.tokens k) [
    | none ↦ do
      check (k == p.associated_token_address authority mint token_program) (runtime 2009)
      l' ← p.init_token_account payer k mint authority token_program l
      t ← load_associated l' k mint authority token_program
      ok (t, l')
    | some _ ↦ do t ← load_associated l k mint authority token_program; ok (t, l)
  ]

  -- `seeds = […], bump = …`, with the bump that the account stores.
  unfoldable pub check_seeds : ℕ → List (List ℕ) → ℕ → ℕ → Result (Unit {0})
  check_seeds k seeds bump program =
      elim (p.create_program_address (seeds ++ be_bytes 1 bump ∷ []) program) [
        | none ↦ err (runtime 2006)
        | some address ↦ check (k == address) (runtime 2006)
      ]

  -- `seeds = […], bump`, which gives the bump found.
  unfoldable pub find_bump : ℕ → List (List ℕ) → ℕ → Result ℕ
  find_bump k seeds program =
      let (address, bump) = p.find_program_address seeds program in
      check (k == address) (runtime 2006) >> ok bump
