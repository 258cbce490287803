-- ===== src/Platform/Sort.antt =====
-- `sort.Slice` on elements with distinct keys.
use mathlib.Core.List.{Perm, Pairwise, Pairwise-cons, mem-cons_self}
use mathlib.Core.List.Perm
use mathlib.Core.Logic.Or
use veraxis_memory_admissibi.Prelude.{◌≡◌, Bool, true, false, ◌||◌, List, [], ◌∷◌, arith}
use veraxis_memory_admissibi.Platform.{Platform, IsLess}

module _ {A : Type 0} (less : A → A → Bool) where
  -- One of the two is below the other.
  abbrev pub IsApart : A → A → Type 0
  IsApart x y = (less x y || less y x) ≡ true

  abbrev IsBelow : A → A → Type 0
  IsBelow x y = less x y ≡ true

module _ {A : Type 0} (less : A → A → Bool) (order : IsLess less) (list_set : IsSet (List A)) where
  strict :
      (xs : List A)
      → Pairwise (λ x y. less y x ≡ false) xs
      → Pairwise (IsApart less) xs
      → Pairwise (IsBelow less) xs
  strict [] sorted apart = Pairwise.nil
  strict (x ∷ xs) sorted apart =
      let (first, rest) = Pairwise-cons.0 sorted in
      let (split, later) = Pairwise-cons.0 apart in
      Pairwise-cons.1 (λ y m. ground (arith, first y m, split y m), strict xs rest later)

  strict_unique :
      (xs ys : List A)
      → Pairwise (IsBelow less) xs
      → Pairwise (IsBelow less) ys
      → Perm xs ys
      → xs ≡ ys
  strict_unique [] ys p q perm = Perm.nil-eq perm
  strict_unique (x ∷ xs) [] p q perm = Perm.eq-nil perm
  strict_unique (x ∷ xs) (y ∷ ys) p q perm =
      let (below_x, rest_x) = Pairwise-cons.0 p in
      let (below_y, rest_y) = Pairwise-cons.0 q in
      Or.elim (list_set (x ∷ xs) (y ∷ ys)) (Perm.cons-cons_cases perm)
        (λ (e, tails). let same = strict_unique xs ys rest_x rest_y tails in cc)
        (λ (cs, left, right).
          let xy = below_x y ((Perm.mem_iff left).1 mem-cons_self) in
          let yx = below_y x ((Perm.mem_iff right).1 mem-cons_self) in
          cc (order.trans x y x xy yx, order.irrefl x))

module _ {A : Type 0} (less : A → A → Bool) where
  pub IsApart-prop : (x y : A) → IsProp (IsApart less x y)
  IsApart-prop x y = hlevel

  IsApart-symm : (x y : A) → IsApart less x y → IsApart less y x
  IsApart-symm x y h = ground arith

module _ ⦃p : Platform⦄ {A : Type 0} (less : A → A → Bool) where
  -- Two orders of the same elements, no two of them tied, are sorted alike.
  pub sort_slice-canonical :
      IsLess less
      → IsSet (List A)
      → (xs ys : List A) → Perm xs ys
      → Pairwise (IsApart less) xs
      → p.sort_slice A less xs ≡ p.sort_slice A less ys
  sort_slice-canonical order list_set xs ys perm apart =
      let to_xs = p.sort_slice-perm A less xs in
      let to_ys = p.sort_slice-perm A less ys in
      let carry = λ (l : List A) (e : Perm xs l).
        Perm.pairwise (IsApart-prop less) (IsApart-symm less) e apart in
      strict_unique less order list_set (p.sort_slice A less xs) (p.sort_slice A less ys)
        (strict less order list_set _ (p.sort_slice-sorted A less xs order)
          (carry _ (Perm.symm to_xs)))
        (strict less order list_set _ (p.sort_slice-sorted A less ys order)
          (carry _ (Perm.trans perm (Perm.symm to_ys))))
        (Perm.trans to_xs (Perm.trans perm (Perm.symm to_ys)))
