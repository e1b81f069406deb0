-- ===== src/Tests/Resolvers.antt =====
-- The list of resolvers, at concrete inputs.
use solana_crosschain_protoc.Base.{
  ℕ, [], ◌∷◌, ◌+◌, ◌*◌, ◌≡◌, ◌⊎◌, refl, Bool, true, ◌||◌, ◌==◌, some, none, Result, ok, err,
  runtime,
}
use solana_crosschain_protoc.Base.Bytes.{be_bytes, from_be}
use solana_crosschain_protoc.Ledger.{Ledger, whitelist_state_data, update}
use solana_crosschain_protoc.Platform.Accounts.{check_seeds, find_bump}
use solana_crosschain_protoc.Src.Accounts.{load_access, check_resolver}
use solana_crosschain_protoc.Whitelist.State.{WhitelistState}
use solana_crosschain_protoc.Whitelist.Ids.{whitelist_id, whitelist_state_seed}
use solana_crosschain_protoc.Whitelist.{
  Register, Deregister, SetAuthority, register, deregister, load_authority, load_state,
  access_seeds,
}
use solana_crosschain_protoc.Whitelist.Authority.{
  register_call, set_authority_call, run, run-signed,
}
use solana_crosschain_protoc.Whitelist.Resolvers.{
  register-check_resolver, deregister-check_resolver,
}
use solana_crosschain_protoc.Tests.Model.{model, model-PlatformLaws}

abbrev state_key : ℕ
state_key = 101 * 256 + 255

abbrev access_key : ℕ
access_key = 30 * 256 + 255

abbrev signed : ℕ → Bool
signed k = k == 50 || k == 30

abbrev before : Ledger
before = record {
  lamports = λ k. 100;
  tokens = λ k. none;
  mints = λ k. none;
  accounts = update (λ k. none) state_key (some (whitelist_state_data (record { authority = 50 })));
  unix_timestamp = 1000;
}

abbrev ledger_of : Result Ledger → Ledger
ledger_of (ok l) = l
ledger_of (err e) = before

abbrev registration : Register
registration = record { authority = 50; whitelist_state = state_key; resolver_access = access_key }

abbrev removal : Deregister
removal = record { authority = 50; whitelist_state = state_key; resolver_access = access_key }

abbrev registered : Ledger
registered = ledger_of (register model signed registration 30 7 before)

abbrev removed : Ledger
removed = ledger_of (deregister model signed removal 30 7 registered)

runs :
    (register model signed registration 30 7 before ≡ ok registered)
    × (deregister model signed removal 30 7 registered ≡ ok removed)
unfolding register deregister load_authority load_state load_access access_seeds find_bump
    check_seeds from_be be_bytes
runs = (refl, refl)

runs_call : run model signed (register_call registration 30 7) before ≡ ok registered
unfolding run
runs_call = runs.0

state_held :
    before.accounts ((model.find_program_address (whitelist_state_seed ∷ []) whitelist_id).0)
    ≡ some (whitelist_state_data (record { authority = 50 }))
unfolding from_be be_bytes
state_held = refl

run-signed_example :
    (signed 50 ≡ true)
    × (s' : WhitelistState) × (registered.accounts
          ((model.find_program_address (whitelist_state_seed ∷ []) whitelist_id).0)
        ≡ some (whitelist_state_data s'))
    × ((s' ≡ record { authority = 50 })
        ⊎ ((a : SetAuthority) × (new : ℕ) × (register_call registration 30 7
              ≡ set_authority_call a new)
            × (s'.authority ≡ new)))
run-signed_example =
    run-signed model model-PlatformLaws signed (register_call registration 30 7) before registered
      (record { authority = 50 }) state_held runs_call

register-check_resolver_example : check_resolver model signed 7 30 access_key registered ≡ ok tt
register-check_resolver_example =
    register-check_resolver model model-PlatformLaws signed signed registration 30 7 before
      registered runs.0 refl

deregister-check_resolver_example :
    check_resolver model signed 7 30 access_key removed ≡ err (runtime 3012)
deregister-check_resolver_example =
    deregister-check_resolver model model-PlatformLaws signed signed removal 30 7 30 7 registered
      removed runs.1 refl
