-- ===== src/Axis.antt =====
-- pkg/axis/integrity.go: the drift of a memory's structural vector.
pub mod Types
pub mod Cosine
pub mod Reference
pub mod Drift
pub mod Worker
use veraxis_memory_admissibi.Prelude.{
  ℕ, zero, suc, ◌+◌, ◌-◌, Bool, true, false, ◌==◌, ◌||◌, not, Option, none, some, List, [], ◌∷◌,
  ◌++◌, length, get_elem?, if◌then◌else◌,
}
use veraxis_memory_admissibi.Prelude.Bytes.{GoString, text}
use veraxis_memory_admissibi.Prelude.Int.{ℤ, pos, negsuc, pos_part, ltb_ℤ, leb_ℤ}
use veraxis_memory_admissibi.Prelude.Result.{Result, ok, err, ◌>>=◌, ◌>>◌, reject}
use veraxis_memory_admissibi.Axis.Types.{
  Floats, InvariantDimensions, default_dimensions, drift_type_temporality, drift_type_epistemic,
  drift_type_scope, drift_type_trust, drift_type_mandate, reason_temporality, reason_epistemic,
  reason_scope, reason_trust, reason_mandate,
}

-- `index_panic` is no error of the source: an index of the loop would be out of range.
pub data VectorError : Type 0 where
  invalid_vector_size invalid_vector_bounds index_panic : VectorError

-- `err.Error()`
unfoldable pub error_text : VectorError → GoString
error_text invalid_vector_size =
    text "INVALID_VECTOR_SIZE: structural vectors must be exactly 128 dimensions"
error_text invalid_vector_bounds =
    text "INVALID_VECTOR_BOUNDS: dimension partition slice is out of range"
error_text index_panic = []

-- One of the five calls of `check`.
pub record Partition : Type 0 where
  pub start : ℤ
  pub end : ℤ
  pub drift_type : GoString
  pub reason : GoString

abbrev pub partitions : InvariantDimensions → List Partition
partitions d =
    record {
      start = d.temporality_start;
      end = d.temporality_end;
      drift_type = drift_type_temporality;
      reason = reason_temporality;
    }
    ∷ record {
      start = d.epistemic_start;
      end = d.epistemic_end;
      drift_type = drift_type_epistemic;
      reason = reason_epistemic;
    }
    ∷ record {
      start = d.scope_start;
      end = d.scope_end;
      drift_type = drift_type_scope;
      reason = reason_scope;
    }
    ∷ record {
      start = d.trust_start;
      end = d.trust_end;
      drift_type = drift_type_trust;
      reason = reason_trust;
    }
    ∷ record {
      start = d.mandate_start;
      end = d.mandate_end;
      drift_type = drift_type_mandate;
      reason = reason_mandate;
    }
    ∷ []

module _ ⦃f : Floats⦄ where
  abbrev pub StructuralVector : Type 0
  StructuralVector = List f.Single

  pub record AxisCheckResult : Type 0 where
    pub axis_preserved : Bool
    pub drift_score : f.Double
    pub drift_type : GoString
    pub reason_codes : List GoString

  -- The three accumulators of the loop.
  pub record Sums : Type 0 where
    pub dot_product : f.Double
    pub norm_1 : f.Double
    pub norm_2 : f.Double

  abbrev pub add_products : f.Single → f.Single → Sums → Sums
  add_products a b s = record {
    dot_product = f.plus s.dot_product (f.widen (f.mul_single a b));
    norm_1 = f.plus s.norm_1 (f.widen (f.mul_single a a));
    norm_2 = f.plus s.norm_2 (f.widen (f.mul_single b b));
  }

  abbrev pub round : Option f.Single → Option f.Single → Sums → Result VectorError Sums
  round (some a) (some b) s = ok (add_products a b s)
  round _ _ s = err index_panic

  -- The loop, for `n` rounds from index `i`.
  unfoldable pub sum_products :
      StructuralVector → StructuralVector → ℕ → ℕ → Sums → Result VectorError Sums
  sum_products v1 v2 zero i s = ok s
  sum_products v1 v2 (suc n) i s =
      round (get_elem? v1 i) (get_elem? v2 i) s >>= sum_products v1 v2 n (suc i)

  -- What follows the loop.
  unfoldable pub similarity : Sums → f.Double
  similarity s =
      if f.equal s.norm_1 f.nought || f.equal s.norm_2 f.nought
      then f.nought
      else f.over s.dot_product (f.times (f.sqrt s.norm_1) (f.sqrt s.norm_2))

  unfoldable pub cosine_similarity :
      StructuralVector → StructuralVector → ℤ → ℤ → Result VectorError f.Double
  unfolding sum_products similarity
  cosine_similarity v1 v2 start end = do
    reject (not (length v1 == 128) || not (length v2 == 128)) invalid_vector_size
    reject (ltb_ℤ start (pos 0) || (leb_ℤ (pos (length v1)) end || ltb_ℤ end start))
        invalid_vector_bounds
    s ←
        sum_products v1 v2 (pos_part end + 1 - pos_part start) (pos_part start)
          (record { dot_product = f.nought; norm_1 = f.nought; norm_2 = f.nought })
    ok (similarity s)

  -- The closure `check` behind its call of `CosineSimilarity`.
  unfoldable pub check_similarity :
      f.Double → Partition → AxisCheckResult → Result VectorError f.Double → AxisCheckResult
  unfolding error_text
  check_similarity threshold q res (err e) = record {
    axis_preserved = false;
    drift_type = text "INVALID_AXIS_INPUT";
    reason_codes = res.reason_codes ++ error_text e ∷ [];
    drift_score = f.one;
  }
  check_similarity threshold q res (ok sim) =
      let drift = f.minus f.one sim in
      if f.gt drift threshold
      then (let higher = f.gt drift res.drift_score in
          record {
            axis_preserved = false;
            reason_codes = res.reason_codes ++ q.reason ∷ [];
            drift_score = if higher then drift else res.drift_score;
            drift_type = if higher then q.drift_type else res.drift_type;
          })
      else res

  unfoldable pub run_checks :
      StructuralVector
      → StructuralVector
      → f.Double
      → List Partition
      → AxisCheckResult
      → AxisCheckResult
  unfolding check_similarity cosine_similarity
  run_checks anchor mutated threshold [] res = res
  run_checks anchor mutated threshold (q ∷ qs) res =
      run_checks anchor mutated threshold qs
        (check_similarity threshold q res (cosine_similarity anchor mutated q.start q.end))

  unfoldable pub evaluate_drift :
      StructuralVector → StructuralVector → InvariantDimensions → f.Double → AxisCheckResult
  unfolding run_checks
  evaluate_drift anchor mutated dims threshold =
      run_checks anchor mutated threshold (partitions dims) (record {
        axis_preserved = true;
        drift_score = f.nought;
        drift_type = [];
        reason_codes = [];
      })
