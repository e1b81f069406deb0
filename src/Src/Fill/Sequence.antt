-- ===== src/Src/Fill/Sequence.antt =====
-- The fills of one order, one after the other: no secret serves twice.
use solana_crosschain_protoc.Base.{
  ℕ, ◌+◌, ◌-◌, ◌*◌, ◌<◌, ◌≤◌, ◌≡◌, sym, subst, suc, true, ok, List, [], ◌∷◌, arith,
}
use solana_crosschain_protoc.Src.Fill.{is_valid_partial_fill}
use solana_crosschain_protoc.Src.Fill.Parts.{
  part_of, FillsPart, is_valid_partial_fill-FillsPart, empty_fill_refused,
}
use solana_crosschain_protoc.Base.Div.{div_mono}
use native.Mathlib.Decide.{dec_lt}
use native.Mathlib.Nat.{mul-le-mul_right, div-lt_iff_lt-mul, mul_comm}

-- An amount and the index of the proof that came with it.
pub record Fill : Type 0 where
  pub making : ℕ
  pub index : ℕ

-- The fills that an order of `total` units in `parts` parts takes from a remaining amount down to
-- another: `create_escrow` asks that the amount be covered and the test accept the index, lowers
-- the remaining amount, and closes the order where nothing remains.
pub data Fills (total parts : ℕ) : ℕ → List Fill → ℕ → Type 0 where
  done : {remaining : ℕ} → Fills total parts remaining [] remaining
  fill :
      {remaining final : ℕ} {fills : List Fill} (f : Fill)
      → 0 < remaining
      → f.making ≤ remaining
      → is_valid_partial_fill f.making remaining total parts f.index ≡ ok true
      → Fills total parts (remaining - f.making) fills final
      → Fills total parts remaining (f ∷ fills) final

abbrev pub taken : List Fill → ℕ
taken [] = 0
taken (f ∷ fs) = f.making + taken fs

-- Each index is more than the one before it, the first more than `low`, and none is over `parts`.
abbrev pub Climbs : ℕ → ℕ → List Fill → Type 0
Climbs parts low [] = Unit
Climbs parts low (f ∷ fs) = (low < f.index) × (f.index ≤ parts) × Climbs parts f.index fs

abbrev pub ClimbsFrom : ℕ → List Fill → Type 0
ClimbsFrom parts [] = Unit
ClimbsFrom parts (f ∷ fs) = (f.index ≤ parts) × Climbs parts f.index fs

-- `create` sees to it that an order with several fills has more than one part.
module _ (total parts : ℕ) (some_parts : 0 < parts) where
  part_mono : (a b : ℕ) → a ≤ b → part_of total parts a ≤ part_of total parts b
  part_mono a b h =
      div_mono ((a - 1) * parts) ((b - 1) * parts) total
        (mul-le-mul_right parts (let e : a - 1 ≤ b - 1 = omega arith in e))

  part-lt : (a : ℕ) → 0 < a → a ≤ total → part_of total parts a < parts
  part-lt a h g = (div-lt_iff_lt-mul {x = (a - 1) * parts} {y = parts} (omega arith)).1 (
      omega (
        arith,
        mul-le-mul_right parts (let e : suc (a - 1) ≤ total = omega arith in e),
        mul_comm parts total,
        some_parts,
      ))

  -- The test at one fill, which takes something.
  accepted :
      (remaining : ℕ) (f : Fill)
      → 0 < remaining
      → remaining ≤ total
      → f.making ≤ remaining
      → is_valid_partial_fill f.making remaining total parts f.index ≡ ok true
      → (0 < f.making) × FillsPart f.making remaining total parts f.index
  accepted remaining f h g k v =
      let some_taken : 0 < f.making = elim (dec_lt 0 f.making) [
        | yes p ↦ p
        | no q ↦ absurd (
            empty_fill_refused remaining total parts f.index h (
              subst (λ m. is_valid_partial_fill m remaining total parts f.index ≡ ok true)
                (let e : f.making ≡ 0 = omega arith in e) v))
      ] in
      (some_taken, is_valid_partial_fill-FillsPart f.making remaining total parts f.index v)

  -- The index of one fill: above the part where the fill before ended, and at least the part
  -- where this one ends.
  index_bounds :
      (remaining : ℕ) (f : Fill)
      → 0 < remaining
      → remaining ≤ total
      → f.making ≤ remaining
      → is_valid_partial_fill f.making remaining total parts f.index ≡ ok true
      → (0 < f.making)
        × (remaining < total → part_of total parts (total - remaining) < f.index)
        × (f.index ≤ parts)
        × (f.making < remaining → f.index ≡ part_of total parts (total - (remaining - f.making)))
  index_bounds remaining f h g k v =
      let reached = total - remaining + f.making in
      let (p, fits) = accepted remaining f h g k v in
      let same : total - (remaining - f.making) ≡ reached = omega arith in
      rw same (
        p,
        ground (arith, fits, part_mono (total - remaining) reached),
        ground (arith, fits, part-lt reached),
        ground (arith, fits),
      )

  -- Behind a fill that completes the order there is none.
  after :
      (remaining : ℕ) (f : Fill) {final : ℕ} {fills : List Fill}
      → f.making ≤ remaining
      → (f.making < remaining → f.index ≡ part_of total parts (total - (remaining - f.making)))
      → Fills total parts (remaining - f.making) fills final
      → Climbs parts (part_of total parts (total - (remaining - f.making))) fills
      → Climbs parts f.index fills
  after remaining f k e done up = tt
  after remaining f k e (fill {fills = fs} g p q v later) up =
      subst (λ low. Climbs parts low (g ∷ fs)) (sym (e (omega arith))) up

  -- From the first fill behind the start on.
  Fills-climb :
      {remaining final : ℕ} {fills : List Fill}
      → remaining < total
      → Fills total parts remaining fills final
      → Climbs parts (part_of total parts (total - remaining)) fills
        × (taken fills + final ≡ remaining)
  Fills-climb lt done = (tt, omega arith)
  Fills-climb {remaining} lt (fill {fills = fs} f h k v later) =
      let b = index_bounds remaining f h (omega arith) k v in
      let (up, sum) = Fills-climb (omega (arith, b.0)) later in
      ((b.1 lt, b.2, after remaining f k b.3 later up), omega (arith, sum))

  -- In any sequence of fills of an order with parts, from the whole amount down, each covered by
  -- what remains and accepted by the test, the indices of the proofs strictly increase and never
  -- pass the number of parts, so no index serves twice; the amounts taken and what remains make up
  -- the whole amount.
  pub Fills-use_new_secrets :
      {final : ℕ} {fills : List Fill}
      → Fills total parts total fills final
      → ClimbsFrom parts fills × (taken fills + final ≡ total)
  Fills-use_new_secrets done = (tt, omega arith)
  Fills-use_new_secrets (fill {fills = fs} f h k v later) =
      let b = index_bounds total f h (omega arith) k v in
      let (up, sum) = Fills-climb (omega (arith, b.0)) later in
      ((b.2, after total f k b.3 later up), omega (arith, sum))
