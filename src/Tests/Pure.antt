-- ===== src/Tests/Pure.antt =====
-- The theorems on the pure parts, at concrete inputs.
use solana_crosschain_protoc.Base.{
  ℕ, ◌+◌, ◌*◌, ◌%◌, ◌^◌, ◌<◌, ◌≤◌, ◌≡◌, ◌⊎◌, refl, ap, true, List, [], ◌∷◌, ok, err, panicked,
  ◌>>=◌, checked_add32, arith, max, add64, sub64, mul64, div64,
}
use solana_crosschain_protoc.Uint256.Reference.{limbs, limbs-IsU256, reference, reference-U256Laws}
use solana_crosschain_protoc.Common.Timelocks.{
  Timelocks, src_cancellation, set_deployed_at, get, rescue_start,
}
use solana_crosschain_protoc.Common.Timelocks.Fields.{delta, get-set_deployed_at}
use solana_crosschain_protoc.Src.Auction.{
  U24, IsU24, to_u32, to_u64, from_u32, PointAndTimeDelta, AuctionData, calculate_rate_bump,
  calculate_premium,
}
use solana_crosschain_protoc.Src.Auction.U24Bits.{from_u32-to_u32, to_u32-from_u32}
use solana_crosschain_protoc.Src.Auction.Premium.{premium_mono}
use solana_crosschain_protoc.Src.Auction.Piecewise.{rate_curve, highest}
use solana_crosschain_protoc.Src.Auction.RateBump.{
  IsAuctionData, calculate_rate_bump-eq-rate_curve, calculate_rate_bump-le,
  calculate_rate_bump_anti,
}
use solana_crosschain_protoc.Src.Merkle.{MerkleProof, process_proof, hash_leaf}
use solana_crosschain_protoc.Src.Merkle.Tree.{
  Tree, leaf, node, root, At, here, left, process_proof-At,
}
use solana_crosschain_protoc.Src.Merkle.Soundness.{process_proof_sound}
use solana_crosschain_protoc.Src.Merkle.Inputs.{ProofClash}
use solana_crosschain_protoc.Src.Fill.{is_valid_partial_fill}
use solana_crosschain_protoc.Src.Fill.Parts.{large_order_never_completes}
use solana_crosschain_protoc.Src.Fill.Sequence.{
  Fill, Fills, done, fill, taken, ClimbsFrom, Fills-use_new_secrets,
}
use solana_crosschain_protoc.Tests.Model.{plain_hash, plain_hashv, plain_hash-KeccakLaws}

abbrev word : Timelocks
word = record { word = limbs (7 * 2 ^ 224 + 30 * 2 ^ 64 + 10) }

get-set_deployed_at_example :
    (get reference (set_deployed_at reference word 1000) src_cancellation
      ≡ checked_add32 1000 (delta word src_cancellation))
    × (rescue_start reference (set_deployed_at reference word 1000) 50 ≡ checked_add32 1000 50)
get-set_deployed_at_example =
    get-set_deployed_at reference reference-U256Laws word 1000 src_cancellation 50
      (limbs-IsU256 (7 * 2 ^ 224 + 30 * 2 ^ 64 + 10)) (omega arith)

abbrev bytes : U24
bytes = record { byte0 = 1; byte1 = 2; byte2 = 3 }

bytes-IsU24 : IsU24 bytes
bytes-IsU24 = record { fits0 = omega arith; fits1 = omega arith; fits2 = omega arith }

to_u32-from_u32_example : from_u32 (to_u32 bytes) ≡ ok bytes
to_u32-from_u32_example = to_u32-from_u32 bytes bytes-IsU24

from_u32-to_u32_example : (from_u32 70000 >>= λ n. ok (to_u32 n)) ≡ ok 70000
from_u32-to_u32_example = from_u32-to_u32 70000 (omega arith)

abbrev point : PointAndTimeDelta
point = record { rate_bump = record { byte0 = 0; byte1 = 1; byte2 = 0 }; time_delta = 40 }

abbrev auction : AuctionData
auction = record {
  start_time = 100;
  duration = 100;
  initial_rate_bump = bytes;
  points_and_time_deltas = point ∷ [];
}

auction-IsAuctionData : IsAuctionData auction
auction-IsAuctionData = record {
  start_fits = omega arith;
  duration_fits = omega arith;
  initial_fits = bytes-IsU24;
  points_fit =
      (record { fits0 = omega arith; fits1 = omega arith; fits2 = omega arith }, omega arith, tt);
}

calculate_rate_bump-eq-rate_curve_example :
    calculate_rate_bump 120 auction ≡ ok (rate_curve 120 auction)
calculate_rate_bump-eq-rate_curve_example =
    calculate_rate_bump-eq-rate_curve 120 auction auction-IsAuctionData

bump_now : calculate_rate_bump 120 auction ≡ ok 33153
unfolding calculate_rate_bump add64 sub64 mul64 div64
bump_now = refl

bump_later : calculate_rate_bump 170 auction ≡ ok 128
unfolding calculate_rate_bump add64 sub64 mul64 div64
bump_later = refl

calculate_rate_bump-le_example : 33153 ≤ max (to_u64 bytes) (highest (point ∷ []))
calculate_rate_bump-le_example = calculate_rate_bump-le 120 auction auction-IsAuctionData bump_now

descends : to_u64 point.rate_bump ≤ to_u64 bytes
unfolding to_u64
descends = omega arith

calculate_rate_bump_anti_example : 128 ≤ 33153
calculate_rate_bump_anti_example =
    calculate_rate_bump_anti 120 170 auction auction-IsAuctionData (descends, tt) (omega arith)
      bump_now bump_later

premium_now : calculate_premium 130 100 60 900 ≡ ok 450
unfolding calculate_premium sub64 mul64 div64
premium_now = refl

premium_later : calculate_premium 145 100 60 900 ≡ ok 675
unfolding calculate_premium sub64 mul64 div64
premium_later = refl

premium_mono_example : (450 ≤ 675) × (675 ≤ 900)
premium_mono_example = premium_mono 130 145 100 60 900 premium_now premium_later (omega arith)

abbrev tree : Tree
tree = node (leaf 0 5) (leaf 1 6)

abbrev proof_of_first : MerkleProof
proof_of_first = record { proof = root plain_hashv (leaf 1 6) ∷ []; index = 0; hashed_secret = 5 }

process_proof-At_example : process_proof plain_hashv proof_of_first ≡ root plain_hashv tree
process_proof-At_example = process_proof-At plain_hashv proof_of_first (left here)

sibling-lt : root plain_hashv (leaf 1 6) < 2 ^ 256
unfolding root hash_leaf
sibling-lt = omega arith

process_proof_sound_example :
    ProofClash plain_hash plain_hashv tree proof_of_first
    ⊎ At plain_hashv tree (root plain_hashv (leaf 1 6) ∷ []) (leaf 0 5)
process_proof_sound_example =
    process_proof_sound plain_hash plain_hashv plain_hash-KeccakLaws tree proof_of_first
      ((omega arith, omega arith), (omega arith, omega arith)) (sibling-lt, tt) (omega arith)
      (omega arith) (ap (λ (x : ℕ). x % 2 ^ 240) process_proof-At_example)

large_order_never_completes_example :
    is_valid_partial_fill (2 ^ 63) (2 ^ 63) (2 ^ 63) 4 4 ≡ err panicked
large_order_never_completes_example =
    large_order_never_completes (2 ^ 63) (2 ^ 63) 4 4 (omega arith) (omega arith) (omega arith)
      (omega arith)

first_valid : is_valid_partial_fill 40 100 100 4 1 ≡ ok true
unfolding is_valid_partial_fill add64 sub64 mul64 div64
first_valid = refl

last_valid : is_valid_partial_fill 60 60 100 4 4 ≡ ok true
unfolding is_valid_partial_fill add64 sub64 mul64 div64
last_valid = refl

abbrev fills : List Fill
fills = record { making = 40; index = 1 } ∷ record { making = 60; index = 4 } ∷ []

fills-Fills : Fills 100 4 100 fills 0
fills-Fills =
    fill (record { making = 40; index = 1 }) (omega arith) (omega arith) first_valid
      (fill (record { making = 60; index = 4 }) (omega arith) (omega arith) last_valid done)

Fills-use_new_secrets_example : ClimbsFrom 4 fills × (taken fills + 0 ≡ 100)
Fills-use_new_secrets_example = Fills-use_new_secrets 100 4 (omega arith) fills-Fills
