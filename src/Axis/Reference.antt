-- ===== src/Axis/Reference.antt =====
-- An independent description of the similarity over a partition, and of what one check adds.
use veraxis_memory_admissibi.Prelude.{
  ℕ, zero, suc, ◌+◌, ◌-◌, ◌≤◌, ◌==◌, ◌≡◌, ◌↔◌, refl, sym, ap, ◌∙◌, false, ◌||◌, ◌&&◌, some, List,
  [], ◌∷◌, length, get_elem?, take, drop, arith, if◌then◌else◌,
}
use veraxis_memory_admissibi.Prelude.Bytes.{GoString, text}
use veraxis_memory_admissibi.Prelude.Int.{ℤ, pos, pos_part, leb_ℤ}
use veraxis_memory_admissibi.Prelude.Result.{ok}
use veraxis_memory_admissibi.Axis.{
  StructuralVector, Sums, sum_products, similarity, cosine_similarity,
}
use veraxis_memory_admissibi.Axis.Cosine.{
  InBounds, guards_iff, last_index, get_elem?-some, similarity-InBounds,
}
use veraxis_memory_admissibi.Axis.Types.{Floats}

drop-get_elem? :
    {A : Type 0} (xs : List A) (i : ℕ) (a : A)
    → get_elem? xs i ≡ some a
    → drop i xs ≡ a ∷ drop (suc i) xs
drop-get_elem? [] i a h = absurd (cc)
drop-get_elem? (x ∷ xs) zero a h = cc
drop-get_elem? (x ∷ xs) (suc i) a h = drop-get_elem? xs i a h

module _ ⦃f : Floats⦄ where
  -- The components of a vector from one index to another, both included.
  abbrev pub slice : StructuralVector → ℤ → ℤ → StructuralVector
  slice v start end = take (pos_part end + 1 - pos_part start) (drop (pos_part start) v)

  -- The inner product of two vectors, added to a number from the left.
  unfoldable pub inner : f.Double → StructuralVector → StructuralVector → f.Double
  inner sum [] ys = sum
  inner sum (x ∷ xs) [] = sum
  inner sum (x ∷ xs) (y ∷ ys) = inner (f.plus sum (f.widen (f.mul_single x y))) xs ys

  -- The cosine of two vectors, which is nought where one of them has length nought.
  abbrev pub cosine : StructuralVector → StructuralVector → f.Double
  cosine xs ys =
      let norm_1 = inner f.nought xs xs in
      let norm_2 = inner f.nought ys ys in
      if f.equal norm_1 f.nought || f.equal norm_2 f.nought
      then f.nought
      else f.over (inner f.nought xs ys) (f.times (f.sqrt norm_1) (f.sqrt norm_2))

  abbrev pub drift : StructuralVector → StructuralVector → ℤ → ℤ → f.Double
  drift v1 v2 start end = f.minus f.one (cosine (slice v1 start end) (slice v2 start end))

  abbrev sums_of : StructuralVector → StructuralVector → Sums → Sums
  sums_of xs ys s = record {
    dot_product = inner s.dot_product xs ys;
    norm_1 = inner s.norm_1 xs xs;
    norm_2 = inner s.norm_2 ys ys;
  }

  sum_products-inner :
      (v1 v2 : StructuralVector) (n i : ℕ) (s : Sums)
      → i + n ≤ length v1
      → i + n ≤ length v2
      → sum_products v1 v2 n i s ≡ ok (sums_of (take n (drop i v1)) (take n (drop i v2)) s)
  unfolding sum_products inner
  sum_products-inner v1 v2 zero i s h1 h2 = refl
  sum_products-inner v1 v2 (suc n) i s h1 h2 =
      let (a, at_1) = get_elem?-some v1 i (omega (arith, h1)) in
      let (b, at_2) = get_elem?-some v2 i (omega (arith, h2)) in
      rw (at_1, at_2, drop-get_elem? v1 i a at_1, drop-get_elem? v2 i b at_2)
        (sum_products-inner v1 v2 n (suc i) _ (omega (arith, h1)) (omega (arith, h2)))

  pub similarity-cosine :
      (v1 v2 : StructuralVector) (start end : ℤ)
      → InBounds v1 v2 start end
      → cosine_similarity v1 v2 start end ≡ ok (cosine (slice v1 start end) (slice v2 start end))
  unfolding cosine_similarity similarity
  similarity-cosine v1 v2 start end h =
      let (sized, bounded) = (guards_iff v1 v2 start end).1 h in
      let within = last_index v1 v2 start end h in
      let summed =
        sum_products-inner v1 v2 (pos_part end + 1 - pos_part start) (pos_part start)
          (record { dot_product = f.nought; norm_1 = f.nought; norm_2 = f.nought })
          (omega (arith, within, h.0)) (omega (arith, within, h.1)) in
      rw (sized, bounded, summed) refl

  -- The similarity is computed without an error, and the drift is not above the threshold.
  abbrev pub Within : StructuralVector → StructuralVector → f.Double → ℤ → ℤ → Type 0
  Within v1 v2 threshold start end =
      InBounds v1 v2 start end × (f.gt (drift v1 v2 start end) threshold ≡ false)

  pub similarity-Within :
      (v1 v2 : StructuralVector) (threshold : f.Double) (start end : ℤ)
      → ((sim : f.Double) × (cosine_similarity v1 v2 start end ≡ ok sim)
          × (f.gt (f.minus f.one sim) threshold ≡ false))
        ↔ Within v1 v2 threshold start end
  similarity-Within v1 v2 threshold start end = (
    λ (sim, computed, low).
        let bounds = similarity-InBounds v1 v2 start end sim computed in
        let made = similarity-cosine v1 v2 start end bounds in
        let same : sim ≡ cosine (slice v1 start end) (slice v2 start end) = cc in
        (bounds, ap (λ x. f.gt (f.minus f.one x) threshold) (sym same) ∙ low),
    λ (bounds, low). (
      cosine (slice v1 start end) (slice v2 start end),
      similarity-cosine v1 v2 start end bounds,
      low,
    ),
  )

  -- What a check of one partition adds to the reason codes.
  abbrev pub codes :
      StructuralVector → StructuralVector → f.Double → ℤ → ℤ → GoString → List GoString
  codes v1 v2 threshold start end reason =
      if length v1 == 128 && length v2 == 128
      then (if leb_ℤ (pos 0) start && (leb_ℤ start end && leb_ℤ end (pos 127))
          then (if f.gt (drift v1 v2 start end) threshold then reason ∷ [] else [])
          else text "INVALID_VECTOR_BOUNDS: dimension partition slice is out of range" ∷ [])
      else text "INVALID_VECTOR_SIZE: structural vectors must be exactly 128 dimensions" ∷ []
