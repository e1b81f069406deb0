-- ===== src/Common/Timelocks.antt =====
-- common/src/timelocks.rs: seven stage offsets and the deployment time, packed in a U256. Each is
-- 32 bits wide; the deployment time is on top.
pub mod Fields
pub mod Windows
use solana_crosschain_protoc.Base.{ℕ, ◌*◌, ◌-◌, ◌^◌, Result, ◌>>=◌, expect, checked_add32}
use solana_crosschain_protoc.Uint256.{U256, U256Ops}

pub data Stage : Type 0 where
  src_withdrawal : Stage
  src_public_withdrawal : Stage
  src_cancellation : Stage
  src_public_cancellation : Stage
  dst_withdrawal : Stage
  dst_public_withdrawal : Stage
  dst_cancellation : Stage

-- `stage as usize`
unfoldable pub index : Stage → ℕ
index src_withdrawal = 0
index src_public_withdrawal = 1
index src_cancellation = 2
index src_public_cancellation = 3
index dst_withdrawal = 4
index dst_public_withdrawal = 5
index dst_cancellation = 6

abbrev pub deployed_at_offset : ℕ
deployed_at_offset = 224

abbrev pub stage_bit_size : ℕ
stage_bit_size = 32

abbrev pub deployed_at_mask : U256
deployed_at_mask = record { limb0 = 0; limb1 = 0; limb2 = 0; limb3 = 0xffff_ffff_0000_0000 }

-- `struct Timelocks(pub U256)`
pub record Timelocks : Type 0 where
  pub word : U256

-- The limbs of the word, as an account stores them.
unfoldable pub get_timelocks : Timelocks → U256
get_timelocks t = t.word

module _ (u : U256Ops) where
  unfoldable pub set_deployed_at : Timelocks → ℕ → Timelocks
  set_deployed_at t deployed_at =
      let cleared = u.bitand t.word (u.bitnot deployed_at_mask) in
      record { word = u.bitor cleared (u.shl (u.from_u64 deployed_at) deployed_at_offset) }

  unfoldable pub rescue_start : Timelocks → ℕ → Result ℕ
  rescue_start t delay = do
    deployed_at ← expect (u.as_u32 (u.shr t.word deployed_at_offset))
    checked_add32 deployed_at delay

  unfoldable pub get : Timelocks → Stage → Result ℕ
  get t stage = do
    let shift = index stage * stage_bit_size
    deployed_at ← expect (u.as_u32 (u.shr t.word deployed_at_offset))
    delta ← expect (u.as_u32 (u.bitand (u.shr t.word shift) (u.from_u64 (2 ^ 32 - 1))))
    checked_add32 deployed_at delta
