-- ===== src/Src/Merkle.antt =====
-- programs/cross-chain-escrow-src/src/merkle_tree.rs: the proof that a hashed secret is a leaf of
-- the tree whose root an order carries. The hash is a parameter.
pub mod Tree
pub mod Inputs
pub mod Soundness
use solana_crosschain_protoc.Base.{ℕ, List, [], ◌∷◌, min, max}
use solana_crosschain_protoc.Base.Bytes.{be_bytes}

pub record MerkleProof : Type 0 where
  pub proof : List ℕ
  pub index : ℕ
  pub hashed_secret : ℕ

module _ (hashv : List (List ℕ) → ℕ) where
  -- `hash_leaf`, of the two fields that it reads.
  unfoldable pub hash_leaf : ℕ → ℕ → ℕ
  hash_leaf index hashed_secret = hashv (be_bytes 8 index ∷ be_bytes 32 hashed_secret ∷ [])

  -- The two hashes of a level, the smaller first.
  unfoldable pub hash_pair : ℕ → ℕ → ℕ
  hash_pair proof_element computed_hash = hashv (
      be_bytes 32 (min proof_element computed_hash)
      ∷ be_bytes 32 (max proof_element computed_hash)
      ∷ [])

  -- The loop of `process_proof`.
  unfoldable pub climb : ℕ → List ℕ → ℕ
  climb computed_hash [] = computed_hash
  climb computed_hash (proof_element ∷ proof) = climb (hash_pair proof_element computed_hash) proof

  unfoldable pub process_proof : MerkleProof → ℕ
  unfolding climb hash_leaf hash_pair
  process_proof m = climb (hash_leaf m.index m.hashed_secret) m.proof
