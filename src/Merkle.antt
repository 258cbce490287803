-- ===== src/Merkle.antt =====
-- pkg/merkle/merkle.go: the leaf records of a turn and the root of their tree.
pub mod Levels
pub mod Trees
pub mod Binding
pub mod Order
use veraxis_memory_admissibi.Prelude.{
  ℕ, zero, suc, Bool, true, false, List, [], ◌∷◌, ◌++◌, map, length, if◌then◌else◌,
}
use veraxis_memory_admissibi.Prelude.Bytes.{Bytes, bytes_lt, zeros}
use veraxis_memory_admissibi.Platform.{Platform}

pub record LeafRecord : Type 0 where
  pub memory_id : Bytes
  pub memory_hash : Bytes
  pub decision_code : ℕ
  pub injected : Bool
  pub policy_hash : Bytes
  pub reason_code_hash : Bytes

-- The bytes that `LeafRecord.Hash` writes into the digest, in order.
unfoldable pub leaf_bytes : LeafRecord → Bytes
leaf_bytes l =
    l.memory_id
    ++ (l.memory_hash
        ++ ((l.decision_code ∷ [])
            ++ (((if l.injected then 1 else 0) ∷ []) ++ (l.policy_hash ++ l.reason_code_hash))))

-- `bytes.Compare(ordered[i].MemoryID[:], ordered[j].MemoryID[:]) < 0`
abbrev pub leaf_less : LeafRecord → LeafRecord → Bool
leaf_less a b = bytes_lt a.memory_id b.memory_id

module _ ⦃p : Platform⦄ where
  unfoldable pub leaf_hash : LeafRecord → Bytes
  leaf_hash l = p.sha256 (leaf_bytes l)

  -- One round of the loop over `i`: pairs are hashed, an odd last hash is promoted.
  unfoldable pub next_level : List Bytes → List Bytes
  next_level [] = []
  next_level (h ∷ []) = h ∷ []
  next_level (h ∷ k ∷ hashes) = p.sha256 (h ++ k) ∷ next_level hashes

  -- `for len(hashes) > 1`, on fuel.
  unfoldable pub collapse : ℕ → List Bytes → List Bytes
  unfolding next_level
  collapse zero hashes = hashes
  collapse (suc fuel) [] = []
  collapse (suc fuel) (h ∷ []) = h ∷ []
  collapse (suc fuel) (h ∷ k ∷ hashes) = collapse fuel (next_level (h ∷ k ∷ hashes))

  -- `hashes[0]`; the loop leaves one hash.
  abbrev pub first_hash : List Bytes → Bytes
  first_hash [] = zeros 32
  first_hash (h ∷ hashes) = h

  unfoldable pub tree_root : List Bytes → Bytes
  unfolding collapse
  tree_root hashes = first_hash (collapse (length hashes) hashes)

  unfoldable pub build_turn_tree : List LeafRecord → Bytes
  unfolding leaf_hash tree_root
  build_turn_tree [] = zeros 32
  build_turn_tree (l ∷ leaves) =
      tree_root (map leaf_hash (p.sort_slice LeafRecord leaf_less (l ∷ leaves)))
