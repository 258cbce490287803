-- ===== src/Merkle/Levels.antt =====
-- The loop over the levels, and the lengths of hashes.
use veraxis_memory_admissibi.Prelude.{
  ℕ, zero, suc, ◌+◌, ◌≤◌, ◌<◌, ◌≡◌, refl, List, [], ◌∷◌, arith, length, ◌++◌, map, All,
}
use veraxis_memory_admissibi.Prelude.Bytes.{Bytes, zeros}
use veraxis_memory_admissibi.Platform.{Platform}
use veraxis_memory_admissibi.Merkle.{
  LeafRecord, leaf_bytes, leaf_less, leaf_hash, next_level, collapse, first_hash, tree_root,
  build_turn_tree,
}

module _ ⦃p : Platform⦄ where
  length-next_level :
      (hs : List Bytes)
      → (length hs ≤ length (next_level hs) + length (next_level hs))
        × (length (next_level hs) + length (next_level hs) ≤ length hs + 1)
  unfolding next_level
  length-next_level [] = omega arith
  length-next_level (h ∷ []) = omega arith
  length-next_level (h ∷ k ∷ hs) = omega (arith, length-next_level hs)

  -- The loop over the levels ends: from any hashes, with as many rounds as there are hashes, one
  -- hash is left.
  pub collapse-one :
      (fuel : ℕ) (hs : List Bytes)
      → 0 < length hs
      → length hs ≤ fuel
      → length (collapse fuel hs) ≡ 1
  unfolding collapse
  collapse-one zero hs some_hash enough = absurd (omega arith)
  collapse-one (suc fuel) [] some_hash enough = absurd (omega arith)
  collapse-one (suc fuel) (h ∷ []) some_hash enough = refl
  collapse-one (suc fuel) (h ∷ k ∷ hs) some_hash enough =
      let halves = length-next_level (h ∷ k ∷ hs) in
      collapse-one fuel (next_level (h ∷ k ∷ hs)) (omega (arith, halves)) (omega (arith, halves))

  -- Every hash of a level has 32 bytes.
  abbrev IsHash : Bytes → Type 0
  IsHash h = length h ≡ 32

  next_level-IsHash : (hs : List Bytes) → All IsHash hs → All IsHash (next_level hs)
  unfolding next_level
  next_level-IsHash [] a = tt
  next_level-IsHash (h ∷ []) a = a
  next_level-IsHash (h ∷ k ∷ hs) (_, (_, a)) = (p.length-sha256 (h ++ k), next_level-IsHash hs a)

  collapse-IsHash : (fuel : ℕ) (hs : List Bytes) → All IsHash hs → All IsHash (collapse fuel hs)
  unfolding collapse
  collapse-IsHash zero hs a = a
  collapse-IsHash (suc fuel) [] a = tt
  collapse-IsHash (suc fuel) (h ∷ []) a = a
  collapse-IsHash (suc fuel) (h ∷ k ∷ hs) a =
      collapse-IsHash fuel (next_level (h ∷ k ∷ hs)) (next_level-IsHash (h ∷ k ∷ hs) a)

  first_hash-IsHash : (hs : List Bytes) → All IsHash hs → IsHash (first_hash hs)
  unfolding zeros
  first_hash-IsHash [] a = refl
  first_hash-IsHash (h ∷ hs) (x, a) = x

  leaf_hashes-IsHash : (ls : List LeafRecord) → All IsHash (map leaf_hash ls)
  unfolding leaf_hash
  leaf_hashes-IsHash [] = tt
  leaf_hashes-IsHash (l ∷ ls) = (p.length-sha256 (leaf_bytes l), leaf_hashes-IsHash ls)

  pub length-build_turn_tree : (ls : List LeafRecord) → length (build_turn_tree ls) ≡ 32
  unfolding build_turn_tree tree_root zeros
  length-build_turn_tree [] = refl
  length-build_turn_tree (l ∷ ls) =
      let hs = map leaf_hash (p.sort_slice LeafRecord leaf_less (l ∷ ls)) in
      first_hash-IsHash (collapse (length hs) hs)
        (collapse-IsHash (length hs) hs (leaf_hashes-IsHash _))
