-- ===== src/Prelude/Perms.antt =====
-- What a permutation keeps, over native lengths.
use mathlib.Core.List.{Perm, Permᴰ}
use mathlib.Core.Logic.{∥∥₁_elim}
use mathlib.Core.HLevel.{×_prop}
use native.Mathlib.Nat.{ℕ_set}
use veraxis_memory_admissibi.Prelude.{◌≡◌, refl, ◌∙◌, ap, suc, List, [], ◌∷◌, length, All}

module _ {A : Type 0} where
  lengthᴰ : {xs ys : List A} → Permᴰ xs ys → length xs ≡ length ys
  lengthᴰ Permᴰ.nil = refl
  lengthᴰ (Permᴰ.cons e d) = ap suc (lengthᴰ d)
  lengthᴰ (Permᴰ.swap e f) = refl
  lengthᴰ (Permᴰ.trans d e) = lengthᴰ d ∙ lengthᴰ e

  pub perm-length : {xs ys : List A} → Perm xs ys → length xs ≡ length ys
  perm-length {xs} {ys} perm = ∥∥₁_elim perm (ℕ_set (length xs) (length ys)) lengthᴰ

module _ {A : Type 0} {P : A → Type 0} (P-prop : (a : A) → IsProp (P a)) where
  Allᴰ : {xs ys : List A} → Permᴰ xs ys → All P xs → All P ys
  Allᴰ Permᴰ.nil h = h
  Allᴰ (Permᴰ.cons e d) (p, h) = (rw (← e) p, Allᴰ d h)
  Allᴰ (Permᴰ.swap e f) (p, (q, h)) = (rw (← f) q, (rw (← e) p, h))
  Allᴰ (Permᴰ.trans d e) h = Allᴰ e (Allᴰ d h)

  All-prop : (xs : List A) → IsProp (All P xs)
  All-prop [] = hlevel
  All-prop (x ∷ xs) = ×_prop (P-prop x) (All-prop xs)

  pub perm-All : {xs ys : List A} → Perm xs ys → All P xs → All P ys
  perm-All {ys = ys} perm h = ∥∥₁_elim perm (All-prop ys) (λ d. Allᴰ d h)
