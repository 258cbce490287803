-- ===== src/Merkle/Binding.antt =====
-- What a root says of the leaves.
use mathlib.Core.List.{Perm, append-nil}
use mathlib.Core.List.Perm
use native.Mathlib.Decide.{ℕ_discrete}
use veraxis_memory_admissibi.Prelude.Perms.{perm-length, perm-All}
use veraxis_memory_admissibi.Prelude.{
  ℕ, zero, suc, ◌<◌, ◌≡◌, ◌≢◌, refl, sym, ap, ◌∙◌, ◌⊎◌, inl, inr, List, [], ◌∷◌, ◌++◌, map, arith,
  length, length-append, append_inj, All, Bool-cases, length-map,
}
use veraxis_memory_admissibi.Prelude.Bytes.{Bytes, bytes_eq, bytes_eq_iff}
use veraxis_memory_admissibi.Platform.{Platform, Collision}
use veraxis_memory_admissibi.Merkle.{
  LeafRecord, leaf_bytes, leaf_less, leaf_hash, next_level, collapse, first_hash, tree_root,
  build_turn_tree,
}
use veraxis_memory_admissibi.Merkle.Levels.{collapse-one}
use veraxis_memory_admissibi.Merkle.Trees.{
  Tree, leaf, node, IsLeaf, fringe, fringes, pair_up, grow, Sized, leaf_tree, fringes-grow,
  grow-Sized, leaf_trees-Sized, records_of_fringe,
}

module _ ⦃p : Platform⦄ where
  digest : Tree → Bytes
  digest (leaf x) = p.sha256 x
  digest (node s t) = p.sha256 (digest s ++ digest t)

  length-digest : (t : Tree) → length (digest t) ≡ 32
  unfolding digest
  length-digest (leaf x) = p.length-sha256 x
  length-digest (node s t) = p.length-sha256 (digest s ++ digest t)

  next_level-digest : (ts : List Tree) → next_level (map digest ts) ≡ map digest (pair_up ts)
  unfolding next_level digest pair_up
  next_level-digest [] = refl
  next_level-digest (t ∷ []) = refl
  next_level-digest (s ∷ t ∷ ts) = ap (◌∷◌ (p.sha256 (digest s ++ digest t))) (next_level-digest ts)

  collapse-digest :
      (fuel : ℕ) (ts : List Tree) → collapse fuel (map digest ts) ≡ map digest (grow fuel ts)
  unfolding collapse grow
  collapse-digest zero ts = refl
  collapse-digest (suc fuel) [] = refl
  collapse-digest (suc fuel) (t ∷ []) = refl
  collapse-digest (suc fuel) (s ∷ t ∷ ts) =
      ap (collapse fuel) (next_level-digest (s ∷ t ∷ ts))
      ∙ collapse-digest fuel (pair_up (s ∷ t ∷ ts))

  -- Equal digests of different messages are a collision.
  eq_or_collision : (x y : Bytes) → p.sha256 x ≡ p.sha256 y → (x ≡ y) ⊎ Collision
  eq_or_collision x y e = elim (Bool-cases (bytes_eq x y)) [
    | inl same ↦ inl ((bytes_eq_iff x y).0 same)
    | inr other ↦ inr (x, y, (λ q. cc ((bytes_eq_iff x y).1 q)), e)
  ]

  not_leaf : (x : Bytes) (t u : Tree) → length x ≡ 114 → x ≢ digest t ++ digest u
  not_leaf x t u h e =
      omega
        (arith, ap length e, length-append (digest t) (digest u), length-digest t, length-digest u)

  both :
      {s t u v : Tree}
      → (s ≡ u) ⊎ Collision
      → (t ≡ v) ⊎ Collision
      → (node s t ≡ node u v) ⊎ Collision
  both (inl e) (inl f) = inl (cc)
  both (inl e) (inr c) = inr c
  both (inr c) r = inr c

  -- A tree is known by its digest, up to collisions: a leaf's message has 114 bytes and a node's 64.
  tree_of_digest : (s t : Tree) → Sized s → Sized t → digest s ≡ digest t → (s ≡ t) ⊎ Collision
  unfolding digest
  tree_of_digest (leaf x) (leaf y) h k e = elim (eq_or_collision x y e) [
    | inl same ↦ inl (ap leaf same)
    | inr c ↦ inr c
  ]
  tree_of_digest (leaf x) (node t u) h k e = inr (x, digest t ++ digest u, not_leaf x t u h, e)
  tree_of_digest (node s r) (leaf y) h k e =
      inr (digest s ++ digest r, y, λ q. not_leaf y s r k (sym q), e)
  tree_of_digest (node s r) (node t u) (hs, hr) (kt, ku) e =
      elim (eq_or_collision (digest s ++ digest r) (digest t ++ digest u) e) [
        | inl same ↦
            let (left, right) =
              append_inj (digest s) (digest t) (digest r) (digest u)
                (cc (length-digest s, length-digest t)) same in
            both (tree_of_digest s t hs kt left) (tree_of_digest r u hr ku right)
        | inr c ↦ inr c
      ]

  only_tree :
      (us : List Tree)
      → length (map digest us) ≡ 1
      → All Sized us
      → (t : Tree) × (first_hash (map digest us) ≡ digest t) × (fringe t ≡ fringes us) × Sized t
  unfolding fringes
  only_tree [] one h = absurd (omega arith)
  only_tree (t ∷ []) one h = (t, refl, sym (append-nil (fringe t)), h.0)
  only_tree (t ∷ u ∷ us) one h = absurd (omega arith)

  hashes_of_leaves : (ls : List LeafRecord) → map leaf_hash ls ≡ map digest (map leaf_tree ls)
  unfolding leaf_hash digest
  hashes_of_leaves [] = refl
  hashes_of_leaves (l ∷ ls) = ap (◌∷◌ (p.sha256 (leaf_bytes l))) (hashes_of_leaves ls)

  -- The tree that the loop builds over the records.
  tree_of_leaves :
      (ls : List LeafRecord)
      → 0 < length ls
      → All IsLeaf ls
      → (t : Tree) × (tree_root (map leaf_hash ls) ≡ digest t)
        × (fringe t ≡ fringes (map leaf_tree ls))
        × Sized t
  unfolding tree_root
  tree_of_leaves ls some_leaf h =
      let ts = map leaf_tree ls in
      let n = length (map leaf_hash ls) in
      let size : n ≡ length ls = length-map leaf_hash ls in
      let same = ap (collapse n) (hashes_of_leaves ls) ∙ collapse-digest n ts in
      let one = collapse-one n (map leaf_hash ls) (omega arith) (omega arith) in
      let (t, root, leaves, sized) =
        only_tree (grow n ts) (ap length (sym same) ∙ one)
          (grow-Sized n ts (leaf_trees-Sized ls h)) in
      (t, ap first_hash same ∙ root, leaves ∙ fringes-grow n ts, sized)

  -- Without a collision the root gives the records back, in the order in which they were hashed.
  leaves_of_root :
      (ls ms : List LeafRecord)
      → 0 < length ls
      → 0 < length ms
      → All IsLeaf ls
      → All IsLeaf ms
      → tree_root (map leaf_hash ls) ≡ tree_root (map leaf_hash ms)
      → (ls ≡ ms) ⊎ Collision
  leaves_of_root ls ms some_l some_m hl hm e =
      let (s, root_s, fringe_s, sized_s) = tree_of_leaves ls some_l hl in
      let (t, root_t, fringe_t, sized_t) = tree_of_leaves ms some_m hm in
      elim (tree_of_digest s t sized_s sized_t (sym root_s ∙ e ∙ root_t)) [
        | inl same ↦ inl (records_of_fringe ls ms hl hm (sym fringe_s ∙ ap fringe same ∙ fringe_t))
        | inr c ↦ inr c
      ]

IsLeaf-prop : (l : LeafRecord) → IsProp (IsLeaf l)
IsLeaf-prop l = hlevel ℕ_discrete

module _ ⦃p : Platform⦄ where
  build_turn_tree-root :
      (ls : List LeafRecord)
      → 0 < length ls
      → build_turn_tree ls ≡ tree_root (map leaf_hash (p.sort_slice LeafRecord leaf_less ls))
  unfolding build_turn_tree
  build_turn_tree-root [] h = absurd (omega arith)
  build_turn_tree-root (l ∷ ls) h = refl

  -- Two non-empty turns with one root have the same records in some order, or two messages are known
  -- that SHA-256 does not tell apart.
  pub root-binds :
      (ls ms : List LeafRecord)
      → 0 < length ls
      → 0 < length ms
      → All IsLeaf ls
      → All IsLeaf ms
      → build_turn_tree ls ≡ build_turn_tree ms
      → Perm ls ms ⊎ Collision
  root-binds ls ms some_l some_m hl hm e =
      let sorted = p.sort_slice LeafRecord leaf_less in
      let perm_l = p.sort_slice-perm LeafRecord leaf_less ls in
      let perm_m = p.sort_slice-perm LeafRecord leaf_less ms in
      let size_l = perm-length perm_l in
      let size_m = perm-length perm_m in
      elim (leaves_of_root (sorted ls) (sorted ms) (omega arith) (omega arith)
        (perm-All IsLeaf-prop (Perm.symm perm_l) hl) (perm-All IsLeaf-prop (Perm.symm perm_m) hm)
        (sym (build_turn_tree-root ls some_l) ∙ e ∙ build_turn_tree-root ms some_m)) [
          | inl same ↦ inl (Perm.trans (Perm.symm perm_l) (rw same perm_m))
          | inr c ↦ inr c
        ]
