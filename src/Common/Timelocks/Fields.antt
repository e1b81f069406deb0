-- ===== src/Common/Timelocks/Fields.antt =====
-- The packed fields of the timelocks: what a read gives, and that stamping the deployment time
-- leaves every stage offset alone.
use solana_crosschain_protoc.Base.{
  ℕ, ◌+◌, ◌-◌, ◌*◌, ◌/◌, ◌%◌, ◌^◌, ◌<◌, ◌≡◌, refl, ap, ◌∙◌, checked_add32, some, arith,
}
use mathlib.Core.Path.{ap₂}
use Prim.Native.Nat.{bit_and, bit_or}
use solana_crosschain_protoc.Base.Bits.{and_low_mask, or_fields_low}
use solana_crosschain_protoc.Uint256.{U256, IsU256, value, value-lt, U256Ops, U256Laws}
use solana_crosschain_protoc.Common.Timelocks.{
  Stage, src_withdrawal, src_public_withdrawal, src_cancellation, src_public_cancellation,
  dst_withdrawal, dst_public_withdrawal, dst_cancellation, index, Timelocks, deployed_at_mask,
  set_deployed_at, rescue_start, get,
}

-- The offset of a stage, as a bit field of the packed number.
abbrev pub delta : Timelocks → Stage → ℕ
delta t stage = value t.word / 2 ^ (index stage * 32) % 2 ^ 32

-- The deployment time, as a bit field.
abbrev pub deployed_at : Timelocks → ℕ
deployed_at t = value t.word / 2 ^ 224

mask-IsU256 : IsU256 deployed_at_mask
mask-IsU256 = omega arith

mask_value : value deployed_at_mask ≡ 2 ^ 256 - 2 ^ 224
unfolding value
mask_value = refl

module _ (u : U256Ops) (laws : U256Laws u) where
  deployed_read :
      (t : Timelocks) → IsU256 t.word → u.as_u32 (u.shr t.word 224) ≡ some (deployed_at t)
  deployed_read t h =
      let v = laws.shr_value t.word 224 h in
      laws.as_u32_value _ (laws.shr_fits t.word 224 h) (omega (arith, v, value-lt t.word h))
      ∙ ap some v

  delta_read :
      (t : Timelocks) (stage : Stage)
      → IsU256 t.word
      → u.as_u32 (u.bitand (u.shr t.word (index stage * 32)) (u.from_u64 (2 ^ 32 - 1)))
        ≡ some (delta t stage)
  delta_read t stage h =
      let k = index stage * 32 in
      let mask = u.from_u64 (2 ^ 32 - 1) in
      let mask_fits = laws.from_u64_fits (2 ^ 32 - 1) (omega arith) in
      let v =
        laws.bitand_value (u.shr t.word k) mask (laws.shr_fits t.word k h) mask_fits
        ∙ ap₂ bit_and (laws.shr_value t.word k h) (laws.from_u64_value (2 ^ 32 - 1) (omega arith))
        ∙ and_low_mask 32 (value t.word / 2 ^ k) in
      laws.as_u32_value _ (laws.bitand_fits _ mask (laws.shr_fits t.word k h) mask_fits)
        (omega (arith, v))
      ∙ ap some v

  -- A read adds the stage's offset to the deployment time, or reports the overflow of u32.
  pub get_lem :
      (t : Timelocks) (stage : Stage)
      → IsU256 t.word
      → get u t stage ≡ checked_add32 (deployed_at t) (delta t stage)
  unfolding get
  get_lem t stage h = rw (deployed_read t h, delta_read t stage h)

  pub rescue_start_lem :
      (t : Timelocks) (delay : ℕ)
      → IsU256 t.word
      → rescue_start u t delay ≡ checked_add32 (deployed_at t) delay
  unfolding rescue_start
  rescue_start_lem t delay h = rw (deployed_read t h)

  -- The two halves of the stamped word.
  cleared : (t : Timelocks) → U256
  cleared t = u.bitand t.word (u.bitnot deployed_at_mask)

  stamp : ℕ → U256
  stamp now = u.shl (u.from_u64 now) 224

  cleared-IsU256 : (t : Timelocks) → IsU256 t.word → IsU256 (cleared t)
  unfolding cleared
  cleared-IsU256 t h = laws.bitand_fits t.word _ h (laws.bitnot_fits _ mask-IsU256)

  value-cleared : (t : Timelocks) → IsU256 t.word → value (cleared t) ≡ value t.word % 2 ^ 224
  unfolding cleared
  value-cleared t h =
      laws.bitand_value t.word _ h (laws.bitnot_fits _ mask-IsU256)
      ∙ ap (bit_and (value t.word))
          (laws.bitnot_value _ mask-IsU256 ∙ ap (λ (m : ℕ). 2 ^ 256 - 1 - m) mask_value)
      ∙ and_low_mask 224 (value t.word)

  stamp-IsU256 : (now : ℕ) → now < 2 ^ 32 → IsU256 (stamp now)
  unfolding stamp
  stamp-IsU256 now h = laws.shl_fits _ 224 (laws.from_u64_fits now (omega arith))

  value-stamp : (now : ℕ) → now < 2 ^ 32 → value (stamp now) ≡ now * 2 ^ 224
  unfolding stamp
  value-stamp now h = omega (
    arith,
    laws.shl_value (u.from_u64 now) 224 (laws.from_u64_fits now (omega arith)),
    laws.from_u64_value now (omega arith),
  )

  pub set-IsU256 :
      (t : Timelocks) (now : ℕ)
      → IsU256 t.word
      → now < 2 ^ 32
      → IsU256 (set_deployed_at u t now).word
  unfolding set_deployed_at cleared stamp
  set-IsU256 t now h lt =
      laws.bitor_fits (cleared t) (stamp now) (cleared-IsU256 t h) (stamp-IsU256 now lt)

  -- The stamped word, as a number.
  pub set_value :
      (t : Timelocks) (now : ℕ)
      → IsU256 t.word
      → now < 2 ^ 32
      → value (set_deployed_at u t now).word ≡ now * 2 ^ 224 + value t.word % 2 ^ 224
  unfolding set_deployed_at cleared stamp
  set_value t now h lt =
      laws.bitor_value (cleared t) (stamp now) (cleared-IsU256 t h) (stamp-IsU256 now lt)
      ∙ ap₂ bit_or (value-cleared t h) (value-stamp now lt)
      ∙ or_fields_low 224 now (value t.word % 2 ^ 224) (omega arith)

  deployed_at-set :
      (t : Timelocks) (now : ℕ)
      → IsU256 t.word
      → now < 2 ^ 32
      → deployed_at (set_deployed_at u t now) ≡ now
  deployed_at-set t now h lt = omega (arith, set_value t now h lt)

  delta-set :
      (t : Timelocks) (now : ℕ) (stage : Stage)
      → IsU256 t.word
      → now < 2 ^ 32
      → delta (set_deployed_at u t now) stage ≡ delta t stage
  unfolding index
  delta-set t now src_withdrawal h lt = omega (arith, set_value t now h lt)
  delta-set t now src_public_withdrawal h lt = omega (arith, set_value t now h lt)
  delta-set t now src_cancellation h lt = omega (arith, set_value t now h lt)
  delta-set t now src_public_cancellation h lt = omega (arith, set_value t now h lt)
  delta-set t now dst_withdrawal h lt = omega (arith, set_value t now h lt)
  delta-set t now dst_public_withdrawal h lt = omega (arith, set_value t now h lt)
  delta-set t now dst_cancellation h lt = omega (arith, set_value t now h lt)

  -- After `set_deployed_at now`, reading any stage gives `now` plus the offset that the stage had
  -- before, or the overflow error where that sum leaves u32; and `rescue_start` gives `now` plus
  -- the delay in the same way.
  pub get-set_deployed_at :
      (t : Timelocks) (now : ℕ) (stage : Stage) (delay : ℕ)
      → IsU256 t.word
      → now < 2 ^ 32
      → (get u (set_deployed_at u t now) stage ≡ checked_add32 now (delta t stage))
        × (rescue_start u (set_deployed_at u t now) delay ≡ checked_add32 now delay)
  get-set_deployed_at t now stage delay h lt =
      let fits = set-IsU256 t now h lt in
      let d = deployed_at-set t now h lt in
      (
        get_lem (set_deployed_at u t now) stage fits
            ∙ ap₂ checked_add32 d (delta-set t now stage h lt),
        rescue_start_lem (set_deployed_at u t now) delay fits
            ∙ ap (λ (x : ℕ). checked_add32 x delay) d,
      )
