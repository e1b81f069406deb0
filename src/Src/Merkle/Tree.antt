-- ===== src/Src/Merkle/Tree.antt =====
-- Trees of secrets, their roots, and the way up from a subtree.
use solana_crosschain_protoc.Base.{ℕ, ◌≡◌, refl, ap, ◌∙◌, List, [], ◌∷◌, min, max, arith}
use solana_crosschain_protoc.Src.Merkle.{MerkleProof, hash_leaf, hash_pair, climb, process_proof}
use mathlib.Core.Path.{ap₂}
use solana_crosschain_protoc.Base.Bytes.{be_bytes}

-- A leaf has the index of a part and its hashed secret.
pub data Tree : Type 0 where
  leaf : ℕ → ℕ → Tree
  node : Tree → Tree → Tree

module _ (hashv : List (List ℕ) → ℕ) where
  unfoldable pub root : Tree → ℕ
  root (leaf index hashed_secret) = hash_leaf hashv index hashed_secret
  root (node l r) = hash_pair hashv (root l) (root r)

  -- `At t proof s`: `s` is a subtree of `t`, and `proof` lists the siblings on the way up from it.
  pub data At (t : Tree) : List ℕ → Tree → Type 0 where
    here : At t [] t
    left : {proof : List ℕ} {l r : Tree} → At t proof (node l r) → At t (root r ∷ proof) l
    right : {proof : List ℕ} {l r : Tree} → At t proof (node l r) → At t (root l ∷ proof) r

  hash_pair_comm : (a b : ℕ) → hash_pair hashv a b ≡ hash_pair hashv b a
  unfolding hash_pair
  hash_pair_comm a b =
      ap₂ (λ (x y : ℕ). hashv (be_bytes 32 x ∷ be_bytes 32 y ∷ []))
        (let e : min a b ≡ min b a = omega arith in e)
        (let e : max a b ≡ max b a = omega arith in e)

  climb-At : {t s : Tree} {proof : List ℕ} → At t proof s → climb hashv (root s) proof ≡ root t
  unfolding root climb
  climb-At here = refl
  climb-At (left {proof} {l} {r} a) =
      ap (λ (x : ℕ). climb hashv x proof) (hash_pair_comm (root r) (root l)) ∙ climb-At a
  climb-At (right a) = climb-At a

  -- A proof that lists the siblings of a leaf, bottom up, gives the root of the tree: every part of
  -- an order can be proved.
  pub process_proof-At :
      {t : Tree} (m : MerkleProof)
      → At t m.proof (leaf m.index m.hashed_secret)
      → process_proof hashv m ≡ root t
  unfolding process_proof root
  process_proof-At m a = climb-At a
