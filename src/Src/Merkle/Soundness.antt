-- ===== src/Src/Merkle/Soundness.antt =====
-- What a proof that is accepted means: the leaf is in the maker's tree where the proof says, or
-- an input hashed for the proof clashes with one hashed for the tree. An order compares the last 30
-- of the root's 32 bytes.
use solana_crosschain_protoc.Base.{
  refl, ℕ, ◌%◌, ◌^◌, ◌<◌, ◌≡◌, ◌≢◌, ap, sym, subst, ◌⊎◌, inl, inr, List, [], ◌∷◌, min, max, arith,
}
use mathlib.Core.Path.{subst₂}
use native.Mathlib.Decide.{ℕ_discrete}
use solana_crosschain_protoc.Base.Bytes.{length, concat}
use solana_crosschain_protoc.Src.Merkle.{MerkleProof, hash_leaf, hash_pair, climb, process_proof}
use solana_crosschain_protoc.Src.Merkle.Tree.{Tree, leaf, node, root, At, here, left, right}
use solana_crosschain_protoc.Src.Merkle.Inputs.{
  KeccakLaws, IsTree, AreHashes, slices, length-slices, slices-ne, Hashed, of_leaf, of_node,
  Climbed, first, later, Clash, ProofClash, At-Hashed,
}

module _ (hash : List ℕ → ℕ) (hashv : List (List ℕ) → ℕ) (laws : KeccakLaws hash hashv) where
  hashv-lt : (xs : List (List ℕ)) → hashv xs < 2 ^ 256
  hashv-lt xs = omega (arith, laws.hashv_joins xs, laws.hash-lt (concat xs))

  root-lt : (t : Tree) → root hashv t < 2 ^ 256
  unfolding root hash_leaf hash_pair
  root-lt (leaf i s) = hashv-lt _
  root-lt (node l r) = hashv-lt _

  clash :
      (xs ys : List (List ℕ))
      → concat xs ≢ concat ys
      → hashv xs % 2 ^ 240 ≡ hashv ys % 2 ^ 240
      → Clash hash xs ys
  clash xs ys d e = (d, omega (arith, laws.hashv_joins xs, laws.hashv_joins ys))

  -- A leaf is never taken for an inner node: they hash 40 and 64 bytes.
  leaf_node-ne :
      (i s a b : ℕ) → concat (slices 8 i 32 s) ≢ concat (slices 32 (min a b) 32 (max a b))
  leaf_node-ne i s a b same =
      omega (arith, ap length same, length-slices 8 i 32 s, length-slices 32 (min a b) 32 (max a b))

  leaf_leaf :
      (i s i' s' : ℕ)
      → i < 2 ^ 64
      → s < 2 ^ 256
      → i' < 2 ^ 64
      → s' < 2 ^ 256
      → hash_leaf hashv i s % 2 ^ 240 ≡ hash_leaf hashv i' s' % 2 ^ 240
      → Clash hash (slices 8 i 32 s) (slices 8 i' 32 s') ⊎ ((i ≡ i') × (s ≡ s'))
  unfolding hash_leaf
  leaf_leaf i s i' s' hi hs hi' hs' e =
      let xs = slices 8 i 32 s in
      let ys = slices 8 i' 32 s' in
      elim (ℕ_discrete i i') [
        | no d ↦ inl (clash xs ys (slices-ne 8 i s i' s' hi hi' hs hs' (inl d)) e)
        | yes same ↦ elim (ℕ_discrete s s') [
          | no d ↦ inl (clash xs ys (slices-ne 8 i s i' s' hi hi' hs hs' (inr d)) e)
          | yes same' ↦ inr (same, same')
        ]
      ]

  node_node :
      (a b a' b' : ℕ)
      → a < 2 ^ 256
      → b < 2 ^ 256
      → a' < 2 ^ 256
      → b' < 2 ^ 256
      → hash_pair hashv a b % 2 ^ 240 ≡ hash_pair hashv a' b' % 2 ^ 240
      → Clash hash (slices 32 (min a b) 32 (max a b)) (slices 32 (min a' b') 32 (max a' b'))
        ⊎ ((min a b ≡ min a' b') × (max a b ≡ max a' b'))
  unfolding hash_pair
  node_node a b a' b' ha hb ha' hb' e =
      let xs = slices 32 (min a b) 32 (max a b) in
      let ys = slices 32 (min a' b') 32 (max a' b') in
      let differ =
        slices-ne 32 (min a b) (max a b) (min a' b') (max a' b') (omega arith) (omega arith)
          (omega arith) (omega arith) in
      elim (ℕ_discrete (min a b) (min a' b')) [
        | no d ↦ inl (clash xs ys (differ (inl d)) e)
        | yes same ↦ elim (ℕ_discrete (max a b) (max a' b')) [
          | no d ↦ inl (clash xs ys (differ (inr d)) e)
          | yes same' ↦ inr (same, same')
        ]
      ]

  -- The subtree at which a climb from `computed` meets the root.
  abbrev Meets : Tree → List ℕ → ℕ → Type 0
  Meets t proof computed =
      (s : Tree) × At hashv t proof s × IsTree s × (root hashv s % 2 ^ 240 ≡ computed % 2 ^ 240)

  abbrev ClashIn : Tree → List (List ℕ) → Type 0
  ClashIn t xs = (ys : List (List ℕ)) × Hashed hashv t ys × Clash hash xs ys

  -- One level down from the subtree that a pair meets.
  descend :
      (t s : Tree) (e c : ℕ) (proof : List ℕ)
      → At hashv t proof s
      → IsTree s
      → e < 2 ^ 256
      → c < 2 ^ 256
      → root hashv s % 2 ^ 240 ≡ hash_pair hashv e c % 2 ^ 240
      → ClashIn s (slices 32 (min e c) 32 (max e c)) ⊎ Meets t (e ∷ proof) c
  unfolding root hash_leaf hash_pair
  descend t (leaf i s) e c proof a v he hc q = inl (
    slices 8 i 32 s,
    of_leaf,
    clash (slices 32 (min e c) 32 (max e c)) (slices 8 i 32 s) (λ x. leaf_node-ne i s e c (sym x))
        (sym q),
  )
  descend t (node l r) e c proof a v he hc q =
      elim (node_node e c (root hashv l) (root hashv r) he hc (root-lt l) (root-lt r) (sym q)) [
        | inl k ↦ inl (
          slices 32 (min (root hashv l) (root hashv r)) 32 (max (root hashv l) (root hashv r)),
          of_node,
          k,
        )
        | inr (lows, highs) ↦ elim (ℕ_discrete (root hashv r) e) [
          | yes same ↦ inr (
            l,
            subst (λ x. At hashv t (x ∷ proof) l) same (left a),
            v.0,
            omega (arith, same, lows, highs),
          )
          | no d ↦ inr (
            r,
            subst (λ x. At hashv t (x ∷ proof) r)
                (let p : root hashv l ≡ e = omega (arith, d, lows, highs) in p) (right a),
            v.1,
            omega (arith, d, lows, highs),
          )
        ]
      ]

  abbrev ClimbClash : Tree → List ℕ → ℕ → Type 0
  ClimbClash t proof c = (xs : List (List ℕ)) × Climbed hashv c proof xs × ClashIn t xs

  climb-Meets :
      (t : Tree) (proof : List ℕ) (c : ℕ)
      → IsTree t
      → AreHashes proof
      → c < 2 ^ 256
      → climb hashv c proof % 2 ^ 240 ≡ root hashv t % 2 ^ 240
      → ClimbClash t proof c ⊎ Meets t proof c
  unfolding climb
  climb-Meets t [] c v hs hc q = inr (t, here, v, sym q)
  climb-Meets t (e ∷ proof) c v hs hc q =
      elim (climb-Meets t proof (hash_pair hashv e c) v hs.1 (unfold hash_pair in hashv-lt _) q) [
        | inl (xs, on_path, k) ↦ inl (xs, later on_path, k)
        | inr (s, a, w, m) ↦ elim (descend t s e c proof a w hs.0 hc m) [
          | inl (ys, inside, k) ↦
              inl (slices 32 (min e c) 32 (max e c), first, (ys, At-Hashed hashv a inside, k))
          | inr met ↦ inr met
        ]
      ]

  -- A climb that starts at a leaf's hash meets that leaf.
  At-leaf :
      (t : Tree) (m : MerkleProof) (s : Tree)
      → m.index < 2 ^ 64
      → m.hashed_secret < 2 ^ 256
      → At hashv t m.proof s
      → IsTree s
      → root hashv s % 2 ^ 240 ≡ hash_leaf hashv m.index m.hashed_secret % 2 ^ 240
      → ClashIn s (slices 8 m.index 32 m.hashed_secret)
        ⊎ At hashv t m.proof (leaf m.index m.hashed_secret)
  unfolding root hash_leaf hash_pair
  At-leaf t m (leaf i d) hi hd a w e =
      elim (leaf_leaf m.index m.hashed_secret i d hi hd w.0 w.1 (sym e)) [
        | inl k ↦ inl (slices 8 i 32 d, of_leaf, k)
        | inr (same, same') ↦
            inr (subst₂ (λ x y. At hashv t m.proof (leaf x y)) (sym same) (sym same') a)
      ]
  At-leaf t m (node l r) hi hd a w e =
      let ys =
        slices 32 (min (root hashv l) (root hashv r)) 32 (max (root hashv l) (root hashv r)) in
      inl (
        ys,
        of_node,
        clash (slices 8 m.index 32 m.hashed_secret) ys
            (leaf_node-ne m.index m.hashed_secret (root hashv l) (root hashv r)) (sym e),
      )

  -- A proof whose result agrees with the root of the maker's tree in the 30 bytes that an order
  -- compares lists exactly the siblings of the leaf with its index and its hashed secret, or one of
  -- the inputs that the check of this proof hashes differs from one of the inputs hashed for this
  -- tree and has the same hash in those bytes.
  pub process_proof_sound :
      (t : Tree) (m : MerkleProof)
      → IsTree t
      → AreHashes m.proof
      → m.index < 2 ^ 64
      → m.hashed_secret < 2 ^ 256
      → process_proof hashv m % 2 ^ 240 ≡ root hashv t % 2 ^ 240
      → ProofClash hash hashv t m ⊎ At hashv t m.proof (leaf m.index m.hashed_secret)
  unfolding process_proof
  process_proof_sound t m v hs hi hd q =
      elim (climb-Meets t m.proof (hash_leaf hashv m.index m.hashed_secret) v hs
        (unfold hash_leaf in hashv-lt _) q) [
          | inl (xs, on_path, (ys, inside, k)) ↦ inl (xs, ys, inr on_path, inside, k)
          | inr (s, a, w, e) ↦ elim (At-leaf t m s hi hd a w e) [
            | inl (ys, inside, k) ↦
                inl (slices 8 m.index 32 m.hashed_secret, ys, inl refl, At-Hashed hashv a inside, k)
            | inr found ↦ inr found
          ]
        ]
