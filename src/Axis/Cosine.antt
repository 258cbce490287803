-- ===== src/Axis/Cosine.antt =====
-- When the similarity of two vectors is computed without an error.
use veraxis_memory_admissibi.Prelude.{
  ℕ, zero, suc, ◌+◌, ◌-◌, ◌≤◌, ◌<◌, ◌==◌, ◌≡◌, ◌≢◌, ◌↔◌, refl, Bool, false, ◌||◌, not, some, List,
  [], ◌∷◌, length, get_elem?, arith, Bool-cases, inl, inr,
}
use veraxis_memory_admissibi.Prelude.Int.{ℤ, pos, pos_part, ◌≤ℤ◌, ltb_ℤ, leb_ℤ}
use veraxis_memory_admissibi.Prelude.Result.{ok, err, reject-ok_elim}
use veraxis_memory_admissibi.Axis.{
  index_panic, StructuralVector, Sums, sum_products, similarity, cosine_similarity,
}
use veraxis_memory_admissibi.Axis.Types.{Floats}

pub get_elem?-some :
    {A : Type 0} (xs : List A) (i : ℕ) → i < length xs → (a : A) × (get_elem? xs i ≡ some a)
get_elem?-some [] i h = absurd (omega (arith, h))
get_elem?-some (x ∷ xs) zero h = (x, refl)
get_elem?-some (x ∷ xs) (suc i) h = get_elem?-some xs i (omega (arith, h))

module _ ⦃f : Floats⦄ where
  sum_products-total :
      (v1 v2 : StructuralVector) (n i : ℕ) (s : Sums)
      → i + n ≤ length v1
      → i + n ≤ length v2
      → (t : Sums) × (sum_products v1 v2 n i s ≡ ok t)
  unfolding sum_products
  sum_products-total v1 v2 zero i s h1 h2 = (s, refl)
  sum_products-total v1 v2 (suc n) i s h1 h2 =
      let (a, at_1) = get_elem?-some v1 i (omega (arith, h1)) in
      let (b, at_2) = get_elem?-some v2 i (omega (arith, h2)) in
      rw (at_1, at_2) (sum_products-total v1 v2 n (suc i) _ (omega (arith, h1)) (omega (arith, h2)))

  -- Two vectors of 128 dimensions, and a partition that lies within them.
  abbrev pub InBounds : StructuralVector → StructuralVector → ℤ → ℤ → Type 0
  InBounds v1 v2 start end =
      (length v1 ≡ 128) × (length v2 ≡ 128) × (pos 0 ≤ℤ start) × (start ≤ℤ end) × (end ≤ℤ pos 127)

  abbrev pub wrong_size : StructuralVector → StructuralVector → Bool
  wrong_size v1 v2 = not (length v1 == 128) || not (length v2 == 128)

  abbrev pub wrong_bounds : StructuralVector → ℤ → ℤ → Bool
  wrong_bounds v1 start end =
      ltb_ℤ start (pos 0) || (leb_ℤ (pos (length v1)) end || ltb_ℤ end start)

  pub guards_iff :
      (v1 v2 : StructuralVector) (start end : ℤ)
      → ((wrong_size v1 v2 ≡ false) × (wrong_bounds v1 start end ≡ false))
        ↔ InBounds v1 v2 start end
  guards_iff v1 v2 start end = ground arith

  pub similarity-InBounds :
      (v1 v2 : StructuralVector) (start end : ℤ) (x : f.Double)
      → cosine_similarity v1 v2 start end ≡ ok x
      → InBounds v1 v2 start end
  unfolding cosine_similarity
  similarity-InBounds v1 v2 start end x h = reject-ok_elim (wrong_size v1 v2) _ _ h λ sized h₁.
      reject-ok_elim (wrong_bounds v1 start end) _ _ h₁
        λ bounded _. (guards_iff v1 v2 start end).0 (sized, bounded)

  pub last_index :
      (v1 v2 : StructuralVector) (start end : ℤ)
      → InBounds v1 v2 start end
      → pos_part start + (pos_part end + 1 - pos_part start) ≤ 128
  last_index v1 v2 start end h = ground (arith, h)

  similarity-total :
      (v1 v2 : StructuralVector) (start end : ℤ)
      → InBounds v1 v2 start end
      → (x : f.Double) × (cosine_similarity v1 v2 start end ≡ ok x)
  unfolding cosine_similarity
  similarity-total v1 v2 start end h =
      let (sized, bounded) = (guards_iff v1 v2 start end).1 h in
      let within = last_index v1 v2 start end h in
      let (t, summed) =
        sum_products-total v1 v2 (pos_part end + 1 - pos_part start) (pos_part start)
          (record { dot_product = f.nought; norm_1 = f.nought; norm_2 = f.nought })
          (omega (arith, within, h.0)) (omega (arith, within, h.1)) in
      (similarity t, rw (sized, bounded, summed) refl)

  no_panic :
      (v1 v2 : StructuralVector) (start end : ℤ)
      → cosine_similarity v1 v2 start end ≢ err index_panic
  unfolding cosine_similarity
  no_panic v1 v2 start end = elim (Bool-cases (wrong_size v1 v2)) [
    | inl bad ↦ rw bad (λ e. cc)
    | inr sized ↦ elim (Bool-cases (wrong_bounds v1 start end)) [
      | inl bad ↦ rw (sized, bad) (λ e. cc)
      | inr bounded ↦ λ e.
          let (x, h) =
            similarity-total v1 v2 start end ((guards_iff v1 v2 start end).0 (sized, bounded)) in
          cc
    ]
  ]

  -- The similarity of two vectors over a partition is computed without an error exactly when both have
  -- 128 dimensions and the partition is not empty and lies within them; it never indexes a vector out
  -- of its range.
  pub cosine_similarity-bounds :
      (v1 v2 : StructuralVector) (start end : ℤ)
      → (((x : f.Double) × (cosine_similarity v1 v2 start end ≡ ok x)) ↔ InBounds v1 v2 start end)
        × (cosine_similarity v1 v2 start end ≢ err index_panic)
  cosine_similarity-bounds v1 v2 start end = (
    (λ (x, h). similarity-InBounds v1 v2 start end x h, similarity-total v1 v2 start end),
    no_panic v1 v2 start end,
  )
