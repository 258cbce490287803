-- ===== src/Merkle/Trees.antt =====
-- Trees of leaves: what a root stands for before hashing.
use mathlib.Core.List.{append_assoc}
use veraxis_memory_admissibi.Prelude.{
  ℕ, zero, suc, ◌≡◌, refl, ap, ◌∙◌, List, [], ◌∷◌, ◌++◌, map, arith, length, length-append,
  append_inj, All,
}
use veraxis_memory_admissibi.Prelude.Bytes.{Bytes}
use veraxis_memory_admissibi.Merkle.{LeafRecord, leaf_bytes}

-- The field sizes that the Go array types fix.
pub record IsLeaf (l : LeafRecord) : Type 0 where
  pub id_size : length l.memory_id ≡ 16
  pub hash_size : length l.memory_hash ≡ 32
  pub policy_size : length l.policy_hash ≡ 32
  pub reason_size : length l.reason_code_hash ≡ 32

pub length-leaf_bytes : (l : LeafRecord) → IsLeaf l → length (leaf_bytes l) ≡ 114
unfolding leaf_bytes
length-leaf_bytes l h = simp length-append (omega arith)

-- The written bytes determine the record.
pub leaf_bytes-injective :
    (l m : LeafRecord) → IsLeaf l → IsLeaf m → leaf_bytes l ≡ leaf_bytes m → l ≡ m
unfolding leaf_bytes
leaf_bytes-injective l m h k e =
    let (id, e₁) = append_inj l.memory_id m.memory_id _ _ (omega arith) e in
    let (hash, e₂) = append_inj l.memory_hash m.memory_hash _ _ (omega arith) e₁ in
    let (policy, reason) =
      append_inj l.policy_hash m.policy_hash l.reason_code_hash m.reason_code_hash (omega arith)
        (cc) in
    ground arith

pub data Tree : Type 0 where
  leaf : Bytes → Tree
  node : Tree → Tree → Tree

unfoldable pub fringe : Tree → List Bytes
fringe (leaf x) = x ∷ []
fringe (node s t) = fringe s ++ fringe t

unfoldable pub fringes : List Tree → List Bytes
fringes [] = []
fringes (t ∷ ts) = fringe t ++ fringes ts

unfoldable pub pair_up : List Tree → List Tree
pair_up [] = []
pair_up (t ∷ []) = t ∷ []
pair_up (s ∷ t ∷ ts) = node s t ∷ pair_up ts

unfoldable pub grow : ℕ → List Tree → List Tree
unfolding pair_up
grow zero ts = ts
grow (suc fuel) [] = []
grow (suc fuel) (t ∷ []) = t ∷ []
grow (suc fuel) (s ∷ t ∷ ts) = grow fuel (pair_up (s ∷ t ∷ ts))

pub fringes-pair_up : (ts : List Tree) → fringes (pair_up ts) ≡ fringes ts
unfolding fringe fringes pair_up
fringes-pair_up [] = refl
fringes-pair_up (t ∷ []) = refl
fringes-pair_up (s ∷ t ∷ ts) =
    append_assoc (fringe s) (fringe t) (fringes (pair_up ts))
    ∙ ap (λ r. fringe s ++ (fringe t ++ r)) (fringes-pair_up ts)

pub fringes-grow : (fuel : ℕ) (ts : List Tree) → fringes (grow fuel ts) ≡ fringes ts
unfolding grow
fringes-grow zero ts = refl
fringes-grow (suc fuel) [] = refl
fringes-grow (suc fuel) (t ∷ []) = refl
fringes-grow (suc fuel) (s ∷ t ∷ ts) =
    fringes-grow fuel (pair_up (s ∷ t ∷ ts)) ∙ fringes-pair_up (s ∷ t ∷ ts)

-- Every leaf has the length of a record.
abbrev pub Sized : Tree → Type 0
Sized (leaf x) = length x ≡ 114
Sized (node s t) = Sized s × Sized t

pub pair_up-Sized : (ts : List Tree) → All Sized ts → All Sized (pair_up ts)
unfolding pair_up
pair_up-Sized [] h = tt
pair_up-Sized (t ∷ []) h = h
pair_up-Sized (s ∷ t ∷ ts) (hs, (ht, h)) = ((hs, ht), pair_up-Sized ts h)

pub grow-Sized : (fuel : ℕ) (ts : List Tree) → All Sized ts → All Sized (grow fuel ts)
unfolding grow
grow-Sized zero ts h = h
grow-Sized (suc fuel) [] h = h
grow-Sized (suc fuel) (t ∷ []) h = h
grow-Sized (suc fuel) (s ∷ t ∷ ts) h =
    grow-Sized fuel (pair_up (s ∷ t ∷ ts)) (pair_up-Sized (s ∷ t ∷ ts) h)

abbrev pub leaf_tree : LeafRecord → Tree
leaf_tree l = leaf (leaf_bytes l)

pub leaf_trees-Sized : (ls : List LeafRecord) → All IsLeaf ls → All Sized (map leaf_tree ls)
leaf_trees-Sized [] h = tt
leaf_trees-Sized (l ∷ ls) (hl, h) = (length-leaf_bytes l hl, leaf_trees-Sized ls h)

-- The fringe of the leaves gives the records back.
pub records_of_fringe :
    (ls ms : List LeafRecord)
    → All IsLeaf ls
    → All IsLeaf ms
    → fringes (map leaf_tree ls) ≡ fringes (map leaf_tree ms)
    → ls ≡ ms
unfolding fringe fringes
records_of_fringe [] [] h k e = refl
records_of_fringe [] (m ∷ ms) h k e = cc
records_of_fringe (l ∷ ls) [] h k e = cc
records_of_fringe (l ∷ ls) (m ∷ ms) (hl, h) (hm, k) e =
    let head_eq = leaf_bytes-injective l m hl hm (cc) in
    let tail_eq = records_of_fringe ls ms h k (cc) in cc
