-- ===== src/Axis/Drift.antt =====
-- What the drift check says of two vectors.
use veraxis_memory_admissibi.Prelude.{
  ◌≡◌, ◌↔◌, refl, length, ◌==◌, ◌&&◌, not, arith, sym, ap, ◌∙◌, true, false, List, [], ◌∷◌, ◌++◌,
  All, Bool-cases, inl, inr, if◌then◌else◌,
}
use mathlib.Core.List.{append_assoc, append-nil}
use veraxis_memory_admissibi.Prelude.Bytes.{GoString, text}
use veraxis_memory_admissibi.Prelude.Int.{ℤ, pos, leb_ℤ}
use veraxis_memory_admissibi.Axis.Reference.{Within, codes, similarity-Within, similarity-cosine}
use veraxis_memory_admissibi.Axis.Cosine.{wrong_size, wrong_bounds, guards_iff}
use veraxis_memory_admissibi.Prelude.Result.{Result, ok, err}
use veraxis_memory_admissibi.Axis.{
  VectorError, error_text, Partition, partitions, StructuralVector, AxisCheckResult,
  cosine_similarity, check_similarity, run_checks, evaluate_drift,
}
use veraxis_memory_admissibi.Axis.Types.{Floats, InvariantDimensions, reason_mandate}

module _ ⦃f : Floats⦄ where
  -- The reasons that one partition gives: the error, or the partition's own reason where the drift is
  -- above the threshold.
  unfoldable reasons_of : f.Double → Partition → Result VectorError f.Double → List GoString
  reasons_of threshold q (err e) = error_text e ∷ []
  reasons_of threshold q (ok sim) = if f.gt (f.minus f.one sim) threshold then q.reason ∷ [] else []

  unfoldable all_reasons :
      StructuralVector → StructuralVector → f.Double → List Partition → List GoString
  unfolding reasons_of
  all_reasons anchor mutated threshold [] = []
  all_reasons anchor mutated threshold (q ∷ qs) =
      reasons_of threshold q (cosine_similarity anchor mutated q.start q.end)
      ++ all_reasons anchor mutated threshold qs

  -- The code's similarity over the partition is computed, and its drift is not above the threshold.
  abbrev Passes : StructuralVector → StructuralVector → f.Double → Partition → Type 0
  Passes anchor mutated threshold q =
      (sim : f.Double) × (cosine_similarity anchor mutated q.start q.end ≡ ok sim)
      × (f.gt (f.minus f.one sim) threshold ≡ false)

  check_similarity-reasons :
      (threshold : f.Double) (q : Partition) (res : AxisCheckResult)
      (r : Result VectorError f.Double)
      → (check_similarity threshold q res r).reason_codes
        ≡ res.reason_codes ++ reasons_of threshold q r
  unfolding check_similarity reasons_of
  check_similarity-reasons threshold q res (err e) = refl
  check_similarity-reasons threshold q res (ok sim) =
      elim (Bool-cases (f.gt (f.minus f.one sim) threshold)) [
        | inl above ↦ rw above refl
        | inr within ↦ rw within (sym (append-nil res.reason_codes))
      ]

  check_similarity-preserved :
      (threshold : f.Double) (q : Partition) (res : AxisCheckResult)
      (r : Result VectorError f.Double)
      → ((check_similarity threshold q res r).axis_preserved ≡ true) ↔ (
          (res.axis_preserved ≡ true)
          × ((sim : f.Double) × (r ≡ ok sim) × (f.gt (f.minus f.one sim) threshold ≡ false)))
  unfolding check_similarity
  check_similarity-preserved threshold q res (err e) =
      (λ h. absurd (cc), λ (_, (sim, h, _)). absurd (cc))
  check_similarity-preserved threshold q res (ok sim) =
      elim (Bool-cases (f.gt (f.minus f.one sim) threshold)) [
        | inl above ↦ rw above (λ h. absurd (cc), λ (_, (x, same, low)). absurd (cc))
        | inr within ↦ rw within (λ h. (h, (sim, refl, within)), λ h. h.0)
      ]

  run_checks-reasons :
      (anchor mutated : StructuralVector) (threshold : f.Double) (qs : List Partition)
      (res : AxisCheckResult)
      → (run_checks anchor mutated threshold qs res).reason_codes
        ≡ res.reason_codes ++ all_reasons anchor mutated threshold qs
  unfolding run_checks all_reasons
  run_checks-reasons anchor mutated threshold [] res = sym (append-nil res.reason_codes)
  run_checks-reasons anchor mutated threshold (q ∷ qs) res =
      let r = cosine_similarity anchor mutated q.start q.end in
      run_checks-reasons anchor mutated threshold qs (check_similarity threshold q res r)
      ∙ ap (λ rs. rs ++ all_reasons anchor mutated threshold qs)
          (check_similarity-reasons threshold q res r)
      ∙ append_assoc res.reason_codes (reasons_of threshold q r) _

  run_checks-preserved :
      (anchor mutated : StructuralVector) (threshold : f.Double) (qs : List Partition)
      (res : AxisCheckResult)
      → ((run_checks anchor mutated threshold qs res).axis_preserved ≡ true)
        ↔ ((res.axis_preserved ≡ true) × All (Passes anchor mutated threshold) qs)
  unfolding run_checks
  run_checks-preserved anchor mutated threshold [] res = (λ h. (h, tt), λ h. h.0)
  run_checks-preserved anchor mutated threshold (q ∷ qs) res =
      let r = cosine_similarity anchor mutated q.start q.end in
      let here = check_similarity-preserved threshold q res r in
      let there =
        run_checks-preserved anchor mutated threshold qs (check_similarity threshold q res r) in
      (
        λ h.
            let (kept, rest) = there.0 h in
            let (before, within) = here.0 kept in (before, (within, rest)),
        λ (before, (within, rest)). there.1 (here.1 (before, within), rest),
      )

  misfit_size :
      (v1 v2 : StructuralVector)
      → wrong_size v1 v2 ≡ true
      → (length v1 == 128 && length v2 == 128) ≡ false
  misfit_size v1 v2 h = ground arith

  fit_size :
      (v1 v2 : StructuralVector)
      → wrong_size v1 v2 ≡ false
      → (length v1 == 128 && length v2 == 128) ≡ true
  fit_size v1 v2 h = ground arith

  fit_bounds :
      (v1 v2 : StructuralVector) (start end : ℤ)
      → wrong_size v1 v2 ≡ false
      → (leb_ℤ (pos 0) start && (leb_ℤ start end && leb_ℤ end (pos 127)))
        ≡ not (wrong_bounds v1 start end)
  fit_bounds v1 v2 start end h = ground arith

  within :
      (anchor mutated : StructuralVector) (threshold : f.Double) (q : Partition)
      → wrong_size anchor mutated ≡ false
      → wrong_bounds anchor q.start q.end ≡ false
      → reasons_of threshold q (cosine_similarity anchor mutated q.start q.end)
        ≡ codes anchor mutated threshold q.start q.end q.reason
  unfolding reasons_of
  within anchor mutated threshold q sized bounded =
      ap (reasons_of threshold q) (
        similarity-cosine anchor mutated q.start q.end
          ((guards_iff anchor mutated q.start q.end).0 (sized, bounded)))
      ∙ rw (fit_size anchor mutated sized, fit_bounds anchor mutated q.start q.end sized, bounded)
          refl

  reasons_of-codes :
      (anchor mutated : StructuralVector) (threshold : f.Double) (q : Partition)
      → reasons_of threshold q (cosine_similarity anchor mutated q.start q.end)
        ≡ codes anchor mutated threshold q.start q.end q.reason
  unfolding reasons_of cosine_similarity error_text
  reasons_of-codes anchor mutated threshold q = elim (Bool-cases (wrong_size anchor mutated)) [
    | inl bad ↦ rw (bad, misfit_size anchor mutated bad) refl
    | inr sized ↦ elim (Bool-cases (wrong_bounds anchor q.start q.end)) [
      | inl bad ↦
          rw
            (
              sized,
              bad,
              fit_size anchor mutated sized,
              fit_bounds anchor mutated q.start q.end sized ∙ ap not bad,
            )
            refl
      | inr bounded ↦ within anchor mutated threshold q sized bounded
    ]
  ]

  unfoldable all_codes :
      StructuralVector → StructuralVector → f.Double → List Partition → List GoString
  all_codes anchor mutated threshold [] = []
  all_codes anchor mutated threshold (q ∷ qs) =
      codes anchor mutated threshold q.start q.end q.reason ++ all_codes anchor mutated threshold qs

  all_reasons-codes :
      (anchor mutated : StructuralVector) (threshold : f.Double) (qs : List Partition)
      → all_reasons anchor mutated threshold qs ≡ all_codes anchor mutated threshold qs
  unfolding all_reasons all_codes
  all_reasons-codes anchor mutated threshold [] = refl
  all_reasons-codes anchor mutated threshold (q ∷ qs) =
      ap (λ xs. xs ++ all_reasons anchor mutated threshold qs)
        (reasons_of-codes anchor mutated threshold q)
      ∙ ap (λ rest. codes anchor mutated threshold q.start q.end q.reason ++ rest)
          (all_reasons-codes anchor mutated threshold qs)

  -- The axis is preserved exactly when over the temporality, the epistemic, the scope, the trust and
  -- the mandate dimensions the similarity is computed without an error and its drift is not above the
  -- threshold: both vectors have 128 dimensions, the dimensions lie within them, and one minus the
  -- cosine of the two slices is not above the threshold. The reason codes are, in this order, the
  -- errors and the reasons of the drifts above the threshold.
  pub evaluate_drift-preserved :
      (anchor mutated : StructuralVector) (dims : InvariantDimensions) (threshold : f.Double)
      → (((evaluate_drift anchor mutated dims threshold).axis_preserved ≡ true) ↔ (
          Within anchor mutated threshold dims.temporality_start dims.temporality_end
          × Within anchor mutated threshold dims.epistemic_start dims.epistemic_end
          × Within anchor mutated threshold dims.scope_start dims.scope_end
          × Within anchor mutated threshold dims.trust_start dims.trust_end
          × Within anchor mutated threshold dims.mandate_start dims.mandate_end))
        × ((evaluate_drift anchor mutated dims threshold).reason_codes
            ≡ codes anchor mutated threshold dims.temporality_start dims.temporality_end
                (text "TEMPORARITY_DRIFT_DETECTED")
              ++ (codes anchor mutated threshold dims.epistemic_start dims.epistemic_end
                    (text "EPISTEMIC_MODAL_SHIFT")
                  ++ (codes anchor mutated threshold dims.scope_start dims.scope_end
                        (text "SCOPE_EXPANSION_VIOLATION")
                      ++ (codes anchor mutated threshold dims.trust_start dims.trust_end
                            (text "SOURCE_TRUST_COLLAPSE")
                          ++ codes anchor mutated threshold dims.mandate_start dims.mandate_end
                              (text "PREFERENCE_PROMOTED_TO_AUTHORITY")))))
  unfolding evaluate_drift all_codes
  evaluate_drift-preserved anchor mutated dims threshold =
      let fresh : AxisCheckResult = record {
        axis_preserved = true;
        drift_score = f.nought;
        drift_type = [];
        reason_codes = [];
      } in
      let kept = run_checks-preserved anchor mutated threshold (partitions dims) fresh in
      let at = similarity-Within anchor mutated threshold in
      (
        (
          λ h.
              let (_, (a, (b, (c, (d, (e, _)))))) = kept.0 h in
              ((at _ _).0 a, (at _ _).0 b, (at _ _).0 c, (at _ _).0 d, (at _ _).0 e),
          λ (a, b, c, d, e). kept.1 (
            refl,
            ((at _ _).1 a, ((at _ _).1 b, ((at _ _).1 c, ((at _ _).1 d, ((at _ _).1 e, tt))))),
          ),
        ),
        run_checks-reasons anchor mutated threshold (partitions dims) fresh
            ∙ all_reasons-codes anchor mutated threshold (partitions dims)
            ∙ rw
                (append-nil (
                  codes anchor mutated threshold dims.mandate_start dims.mandate_end
                    reason_mandate))
                refl,
      )
