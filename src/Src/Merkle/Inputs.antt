-- ===== src/Src/Merkle/Inputs.antt =====
-- What is hashed for a tree and for a proof, and the clash of two such inputs.
use solana_crosschain_protoc.Base.{
  ℕ, ◌+◌, ◌*◌, ◌%◌, ◌^◌, ◌<◌, ◌≡◌, ◌≢◌, ap, ◌∙◌, ◌⊎◌, List, [], ◌∷◌, ◌++◌, min, max, arith,
}
use mathlib.Core.List.{append-nil}
use solana_crosschain_protoc.Base.Bytes.{
  length, length-append, concat, be_bytes, length-be_bytes, from_be, from_be-pair,
}
use solana_crosschain_protoc.Src.Merkle.{MerkleProof, hash_leaf, hash_pair}
use solana_crosschain_protoc.Src.Merkle.Tree.{Tree, leaf, node, root, At, here, left, right}

-- What the documentation of `keccak` says: `hashv` hashes the joined slices, to 32 bytes.
pub record KeccakLaws (hash : List ℕ → ℕ) (hashv : List (List ℕ) → ℕ) : Type 0 where
  pub hashv_joins : (slices : List (List ℕ)) → hashv slices ≡ hash (concat slices)
  pub hash-lt : (bytes : List ℕ) → hash bytes < 2 ^ 256

-- Every leaf of the tree has an index and a hashed secret in range.
abbrev pub IsTree : Tree → Type 0
IsTree (leaf index hashed_secret) = (index < 2 ^ 64) × (hashed_secret < 2 ^ 256)
IsTree (node l r) = IsTree l × IsTree r

abbrev pub AreHashes : List ℕ → Type 0
AreHashes [] = Unit
AreHashes (x ∷ xs) = (x < 2 ^ 256) × AreHashes xs

abbrev pub slices : ℕ → ℕ → ℕ → ℕ → List (List ℕ)
slices v m w n = be_bytes v m ∷ be_bytes w n ∷ []

pub length-slices : (v m w n : ℕ) → length (concat (slices v m w n)) ≡ v + w
length-slices v m w n = omega (
  arith,
  length-append {0} (be_bytes v m) (be_bytes w n ++ []),
  length-append {0} (be_bytes w n) [],
  length-be_bytes v m,
  length-be_bytes w n,
)

pub read_slices :
    (v m w n : ℕ)
    → m < 256 ^ v
    → n < 256 ^ w
    → from_be 0 (concat (slices v m w n)) ≡ m * 256 ^ w + n
read_slices v m w n g h =
    ap (λ (bs : List ℕ). from_be 0 (be_bytes v m ++ bs)) (append-nil (be_bytes w n))
    ∙ from_be-pair v w m n g h

-- The second slices are 32 bytes wide on both sides.
pub slices-ne :
    (v m n m' n' : ℕ)
    → m < 256 ^ v
    → m' < 256 ^ v
    → n < 256 ^ 32
    → n' < 256 ^ 32
    → (m ≢ m') ⊎ (n ≢ n')
    → concat (slices v m 32 n) ≢ concat (slices v m' 32 n')
slices-ne v m n m' n' g g' h h' d e =
    omega (arith, read_slices v m 32 n g h, read_slices v m' 32 n' g' h', ap (from_be 0) e)

-- What is hashed for the root of a tree: the slices of its leaves and of its nodes.
pub data Hashed (hashv : List (List ℕ) → ℕ) : Tree → List (List ℕ) → Type 0 where
  of_leaf :
      {index hashed_secret : ℕ}
      → Hashed hashv (leaf index hashed_secret) (slices 8 index 32 hashed_secret)
  of_node :
      {l r : Tree}
      → Hashed hashv
          (node l r)
          (slices 32 (min (root hashv l) (root hashv r)) 32 (max (root hashv l) (root hashv r)))
  in_left : {l r : Tree} {ys : List (List ℕ)} → Hashed hashv l ys → Hashed hashv (node l r) ys
  in_right : {l r : Tree} {ys : List (List ℕ)} → Hashed hashv r ys → Hashed hashv (node l r) ys

-- What is hashed on the way up from a hash: the slices of each pair.
pub data Climbed (hashv : List (List ℕ) → ℕ) : ℕ → List ℕ → List (List ℕ) → Type 0 where
  first :
      {c e : ℕ} {proof : List ℕ} → Climbed hashv c (e ∷ proof) (slices 32 (min e c) 32 (max e c))
  later :
      {c e : ℕ} {proof : List ℕ} {xs : List (List ℕ)}
      → Climbed hashv (hash_pair hashv e c) proof xs
      → Climbed hashv c (e ∷ proof) xs

-- Two inputs that differ, whose hashes agree in the 30 bytes that an order compares.
abbrev pub Clash : (List ℕ → ℕ) → List (List ℕ) → List (List ℕ) → Type 0
Clash hash xs ys =
    (concat xs ≢ concat ys) × (hash (concat xs) % 2 ^ 240 ≡ hash (concat ys) % 2 ^ 240)

-- One of the inputs that the check of the proof hashes clashes with one of the tree's.
abbrev pub ProofClash : (List ℕ → ℕ) → (List (List ℕ) → ℕ) → Tree → MerkleProof → Type 0
ProofClash hash hashv t m =
    (xs : List (List ℕ)) × (ys : List (List ℕ)) × ((xs ≡ slices 8 m.index 32 m.hashed_secret)
      ⊎ Climbed hashv (hash_leaf hashv m.index m.hashed_secret) m.proof xs)
    × Hashed hashv t ys
    × Clash hash xs ys

-- What is hashed for a subtree is hashed for the tree.
pub At-Hashed :
    (hashv : List (List ℕ) → ℕ) {t s : Tree} {proof : List ℕ} {ys : List (List ℕ)}
    → At hashv t proof s
    → Hashed hashv s ys
    → Hashed hashv t ys
At-Hashed hashv here h = h
At-Hashed hashv (left a) h = At-Hashed hashv a (in_left h)
At-Hashed hashv (right a) h = At-Hashed hashv a (in_right h)
