-- ===== src/Witness/Toy.antt =====
-- A platform that satisfies what is documented of sha256, ed25519 and sort.Slice.
use mathlib.Core.List.{Perm, Pairwise, Pairwise-cons, mem-cons, not-mem-nil}
use mathlib.Core.List.Perm
use mathlib.Core.Logic.Or
use veraxis_memory_admissibi.Prelude.{
  ℕ, ◌≡◌, Bool, true, false, List, [], ◌∷◌, ◌++◌, length, take, length-append, length-take,
  length-replicate, replicate, arith, Bool-cases, inl, inr, if◌then◌else◌,
}
use veraxis_memory_admissibi.Prelude.Bytes.{Bytes, bytes_eq, bytes_eq_refl}
use veraxis_memory_admissibi.Platform.{Platform, IsLess}

-- The first `n` bytes, filled up with zeros.
abbrev fit : ℕ → Bytes → Bytes
fit n b = take n (b ++ replicate n 0)

pub length-fit : (n : ℕ) (b : Bytes) → length (fit n b) ≡ n
length-fit n b =
    length-take n (b ++ replicate n 0)
      (omega (arith, length-append b (replicate n 0), length-replicate {A = ℕ} n 0))

module _ {A : Type 0} (less : A → A → Bool) where
  abbrev insert : A → List A → List A
  insert x [] = x ∷ []
  insert x (y ∷ ys) = let rest = insert x ys in if less y x then y ∷ rest else x ∷ y ∷ ys

  abbrev insertion_sort : List A → List A
  insertion_sort [] = []
  insertion_sort (x ∷ xs) = insert x (insertion_sort xs)

  insert-perm : (x : A) (ys : List A) → Perm (insert x ys) (x ∷ ys)
  insert-perm x [] = Perm.rfl
  insert-perm x (y ∷ ys) = elim (Bool-cases (less y x)) [
    | inl above ↦ rw above (Perm.trans (Perm.cons y (insert-perm x ys)) (Perm.swap x y ys))
    | inr below ↦ rw below Perm.rfl
  ]

  pub sort-perm : (xs : List A) → Perm (insertion_sort xs) xs
  sort-perm [] = Perm.rfl
  sort-perm (x ∷ xs) = Perm.trans (insert-perm x (insertion_sort xs)) (Perm.cons x (sort-perm xs))

  abbrev IsSorted : List A → Type 0
  IsSorted xs = Pairwise (λ x y. less y x ≡ false) xs

  not_less-prop : (x y : A) → IsProp (less x y ≡ false)
  not_less-prop x y = hlevel

  module _ (order : IsLess less) where
    not_both : (x y : A) → less y x ≡ true → less x y ≡ false
    not_both x y h = elim (Bool-cases (less x y)) [
      | inl above ↦ absurd (cc (order.trans x y x above h, order.irrefl x))
      | inr below ↦ below
    ]

    insert-IsSorted : (x : A) (ys : List A) → IsSorted ys → IsSorted (insert x ys)
    insert-IsSorted x [] sorted = Pairwise-cons.1 (λ z m. absurd (not-mem-nil m), Pairwise.nil)
    insert-IsSorted x (y ∷ ys) sorted =
        let (first, rest) = Pairwise-cons.0 sorted in
        elim (Bool-cases (less y x)) [
          | inl above ↦ rw above (
              Pairwise-cons.1 (
                λ z m.
                    Or.elim (not_less-prop z y) (mem-cons.0 ((Perm.mem_iff (insert-perm x ys)).0 m))
                      (λ e. rw e (not_both x y above)) (λ k. first z k),
                insert-IsSorted x ys rest,
              ))
          | inr below ↦ rw below (
              Pairwise-cons.1 (
                λ z m.
                    Or.elim (not_less-prop z x) (mem-cons.0 m) (λ e. rw e below)
                      (λ k. order.negative z y x (first z k) below),
                sorted,
              ))
        ]

    pub sort-IsSorted : (xs : List A) → IsSorted (insertion_sort xs)
    sort-IsSorted [] = Pairwise.nil
    sort-IsSorted (x ∷ xs) = insert-IsSorted x (insertion_sort xs) (sort-IsSorted xs)

-- A key's public part, and the signature of a message under it.
abbrev public_part : Bytes → Bytes
public_part key = fit 32 key

abbrev sign_with : Bytes → Bytes → Bytes
sign_with public message = fit 64 (public ++ message)

abbrev pub toy : Platform
toy = record {
  sha256 = λ b. fit 32 b;
  length-sha256 = λ b. length-fit 32 b;
  sort_slice = λ A less xs. insertion_sort less xs;
  sort_slice-perm = λ A less xs. sort-perm less xs;
  sort_slice-sorted = λ A less xs order. sort-IsSorted less order xs;
  ed25519_new_key = λ seed. seed ++ replicate 32 9;
  length-new_key = λ seed h.
      omega (arith, length-append seed (replicate 32 9), length-replicate {A = ℕ} 32 9, h);
  ed25519_sign = λ key message. sign_with (public_part key) message;
  ed25519_verify = λ public message sig. bytes_eq sig (sign_with public message);
  ed25519_public = λ key. public_part key;
  length-sign = λ key message h. length-fit 64 (public_part key ++ message);
  length-public = λ key h. length-fit 32 key;
  verify-sign =
      λ seed message h. bytes_eq_refl (sign_with (public_part (seed ++ replicate 32 9)) message);
}
