-- ===== src/Src/Fill.antt =====
-- programs/cross-chain-escrow-src/src/lib.rs: `is_valid_partial_fill` and `get_escrow_hashlock`.
-- The order is cut into parts, and each fill must use the secret of the part where it ends.
pub mod Parts
pub mod Sequence
use solana_crosschain_protoc.Base.{
  ℕ, Bool, true, false, not, Option, none, some, Result, ok, ◌>>=◌, add64, sub64, mul64, div64,
  ◌==◌, if◌then◌else◌,
}
use solana_crosschain_protoc.Src.Merkle.{MerkleProof}

-- The test behind the first fill, on the part where the fill before ended.
unfoldable pub starts_new_part : ℕ → ℕ → ℕ → ℕ → ℕ → Result Bool
starts_new_part remaining_making_amount order_making_amount parts_amount calculated_index
      validated_index =
    do
      filled ← sub64 order_making_amount remaining_making_amount
      last ← sub64 filled 1
      scaled ← mul64 last parts_amount
      prev_calculated_index ← div64 scaled order_making_amount
      if calculated_index == prev_calculated_index
          then ok false
          else ok (calculated_index == validated_index)

unfoldable pub is_valid_partial_fill : ℕ → ℕ → ℕ → ℕ → ℕ → Result Bool
unfolding starts_new_part
is_valid_partial_fill making_amount remaining_making_amount order_making_amount parts_amount
      validated_index =
    do
      filled ← sub64 order_making_amount remaining_making_amount
      reached ← add64 filled making_amount
      last ← sub64 reached 1
      scaled ← mul64 last parts_amount
      calculated_index ← div64 scaled order_making_amount
      if remaining_making_amount == making_amount
          then (do next ← add64 calculated_index 1; ok (next == validated_index))
          else if not (order_making_amount == remaining_making_amount)
          then starts_new_part remaining_making_amount order_making_amount parts_amount
              calculated_index validated_index
          else ok (calculated_index == validated_index)

-- The hashlock of the escrow that a fill opens.
unfoldable pub get_escrow_hashlock : ℕ → Option MerkleProof → ℕ
get_escrow_hashlock order_hashlock (some merkle_proof) = merkle_proof.hashed_secret
get_escrow_hashlock order_hashlock none = order_hashlock
