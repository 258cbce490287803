-- ===== src/Merkle/Order.antt =====
-- The root of a turn and the order of its records.
use mathlib.Core.List.{Perm, Pairwise}
use mathlib.Core.List.Perm
use native.Mathlib.Decide.{ℕ_discrete}
use veraxis_memory_admissibi.Prelude.{◌≡◌, refl, ap, List, [], ◌∷◌, map}
use veraxis_memory_admissibi.Prelude.Bytes.{bytes_lt_irrefl, bytes_lt_trans, bytes_lt_negative}
use veraxis_memory_admissibi.Platform.{Platform, IsLess}
use veraxis_memory_admissibi.Platform.Sort.{IsApart, sort_slice-canonical}
use veraxis_memory_admissibi.Merkle.{LeafRecord, leaf_less, leaf_hash, tree_root, build_turn_tree}

leaf_less-IsLess : IsLess leaf_less
leaf_less-IsLess = record {
  irrefl = λ l. bytes_lt_irrefl l.memory_id;
  trans = λ l m n. bytes_lt_trans l.memory_id m.memory_id n.memory_id;
  negative = λ l m n. bytes_lt_negative l.memory_id m.memory_id n.memory_id;
}

leaves_set : IsSet (List LeafRecord)
leaves_set = hlevel ℕ_discrete

module _ ⦃p : Platform⦄ where
  -- Two orders of the same records, no two of them with one memory id, have one root, whatever
  -- algorithm sorts them.
  pub root-order :
      (ls ms : List LeafRecord)
      → Perm ls ms
      → Pairwise (IsApart leaf_less) ls
      → build_turn_tree ls ≡ build_turn_tree ms
  unfolding build_turn_tree
  root-order [] [] perm apart = refl
  root-order [] (m ∷ ms) perm apart = cc (Perm.nil-eq perm)
  root-order (l ∷ ls) [] perm apart = cc (Perm.eq-nil perm)
  root-order (l ∷ ls) (m ∷ ms) perm apart =
      ap (λ sorted. tree_root (map leaf_hash sorted))
        (sort_slice-canonical leaf_less leaf_less-IsLess leaves_set (l ∷ ls) (m ∷ ms) perm apart)
