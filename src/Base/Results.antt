-- ===== src/Base/Results.antt =====
-- common/src/error.rs and programs/whitelist/src/error.rs: the errors that a handler returns, and
-- the result of a fallible step. A transaction that fails leaves the ledger as it was, so a
-- failure carries no ledger.
use Prim.Native.Nat.{ℕ}
use mathlib.Core.Path.{◌≡◌, refl}
use mathlib.Core.Bool.{Bool, true, false}
use mathlib.Core.Option.{Option, none, some}

-- `EscrowError`, in the order of the source.
pub data EscrowError : Type 0 where
  zero_amount_or_deposit : EscrowError
  safety_deposit_too_large : EscrowError
  invalid_secret : EscrowError
  invalid_account : EscrowError
  invalid_amount : EscrowError
  invalid_parts_amount : EscrowError
  invalid_creation_time : EscrowError
  invalid_time : EscrowError
  invalid_rescue_start : EscrowError
  invalid_mint : EscrowError
  missing_creator_ata : EscrowError
  missing_recipient_ata : EscrowError
  inconsistent_native_trait : EscrowError
  cancel_order_by_resolver_is_forbidden : EscrowError
  order_not_expired : EscrowError
  order_has_expired : EscrowError
  dutch_auction_data_hash_mismatch : EscrowError
  invalid_cancellation_fee : EscrowError
  invalid_merkle_proof : EscrowError
  invalid_partial_fill : EscrowError
  inconsistent_merkle_proof_trait : EscrowError

-- `WhitelistError`.
pub data WhitelistError : Type 0 where
  unauthorized : WhitelistError

-- `panicked` is a Rust panic (an overflow check, `expect`, `unwrap` or `assert!`), and `runtime`
-- an error of the framework or of a program that is called, with its code.
pub data Error : Type 0 where
  escrow_error : EscrowError → Error
  whitelist_error : WhitelistError → Error
  arithmetic_overflow : Error
  panicked : Error
  runtime : ℕ → Error

-- `Result<A>`
pub data Result {ℓ} (A : Type ℓ) : Type ℓ where
  err : Error → Result A
  ok : A → Result A

-- `step?`, then what follows it.
infixl 5 ◌>>=◌
abbrev pub ◌>>=◌ {ℓ κ} : {B : Type ℓ} {A : Type κ} → Result B → (B → Result A) → Result A
err failure >>= rest = err failure
ok value >>= rest = rest value

-- The same where the step has no value.
infixl 5 ◌>>◌
abbrev pub ◌>>◌ {ℓ} : {A : Type ℓ} → Result (Unit {0}) → Result A → Result A
step >> rest = step >>= λ done. rest

-- `require!` with an error of this protocol.
abbrev pub require : Bool → EscrowError → Result (Unit {0})
require true e = ok tt
require false e = err (escrow_error e)

-- `ok_or` with any error: `require!` of another program, and checks of the framework.
abbrev pub check : Bool → Error → Result (Unit {0})
check true e = ok tt
check false e = err e

abbrev pub ok_or {ℓ} : {A : Type ℓ} → Option A → Error → Result A
ok_or none e = err e
ok_or (some a) e = ok a

pub ok_or-some : {A : Type 0} (o : Option A) {a : A} (e : Error) → ok_or o e ≡ ok a → o ≡ some a
ok_or-some none e h = cc
ok_or-some (some b) e h = cc

-- `.expect(…)` and `.unwrap()`.
abbrev pub expect {ℓ} : {A : Type ℓ} → Option A → Result A
expect none = err panicked
expect (some a) = ok a

-- Inversion of a step that succeeds.
pub >>=-eq-ok {ℓ κ} :
    {B : Type ℓ} {A : Type κ} (step : Result B) (rest : B → Result A) {result : A}
    → step >>= rest ≡ ok result
    → (value : B) × (step ≡ ok value) × (rest value ≡ ok result)
>>=-eq-ok (err failure) rest e = cc
>>=-eq-ok (ok value) rest e = (value, refl, e)

pub require-eq-ok {ℓ} :
    {B : Type ℓ} (c : Bool) (e : EscrowError) (k : Result B) {b : B}
    → (require c e >> k) ≡ ok b
    → (c ≡ true) × (k ≡ ok b)
require-eq-ok true e k h = (refl, h)
require-eq-ok false e k h = cc

pub check-eq-ok {ℓ} :
    {B : Type ℓ} (c : Bool) (e : Error) (k : Result B) {b : B}
    → (check c e >> k) ≡ ok b
    → (c ≡ true) × (k ≡ ok b)
check-eq-ok true e k h = (refl, h)
check-eq-ok false e k h = cc

-- A check that is the last step.
pub check-true : (c : Bool) (e : Error) {u : Unit {0}} → check c e ≡ ok u → c ≡ true
check-true true e h = refl
check-true false e h = cc

pub expect-eq-ok {ℓ} : {A : Type ℓ} (o : Option A) {a : A} → expect o ≡ ok a → o ≡ some a
expect-eq-ok none h = cc
expect-eq-ok (some b) h = cc

pub ok-injective {ℓ} : {A : Type ℓ} {a b : A} → ok a ≡ ok b → a ≡ b
ok-injective e = cc
