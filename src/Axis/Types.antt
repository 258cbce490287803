-- ===== src/Axis/Types.antt =====
-- The data of the drift check (pkg/axis/integrity.go). `Floats` stands for Go's float32 and float64
-- and for the function math.Sqrt.
use veraxis_memory_admissibi.Prelude.{Bool}
use veraxis_memory_admissibi.Prelude.Bytes.{GoString, text}
use veraxis_memory_admissibi.Prelude.Int.{ℤ, pos}

pub record Floats : Type 1 where
  pub Single : Type 0
  pub Double : Type 0
  -- The product of two float32, and the conversion to float64.
  pub mul_single : Single → Single → Single
  pub widen : Single → Double
  pub nought : Double
  pub one : Double
  pub plus : Double → Double → Double
  pub minus : Double → Double → Double
  pub times : Double → Double → Double
  pub over : Double → Double → Double
  pub sqrt : Double → Double
  -- `==` and `>`
  pub equal : Double → Double → Bool
  pub gt : Double → Double → Bool

abbrev pub drift_type_temporality : GoString
drift_type_temporality = text "TEMPORARY_STATE_PROMOTED_TO_STABLE_TRAIT"

abbrev pub drift_type_epistemic : GoString
drift_type_epistemic = text "INFERENCE_PROMOTED_TO_FACT"

abbrev pub drift_type_scope : GoString
drift_type_scope = text "CONTEXT_BOUND_MEMORY_REUSED_GLOBALLY"

abbrev pub drift_type_trust : GoString
drift_type_trust = text "LOW_TRUST_SOURCE_PROMOTED"

abbrev pub drift_type_mandate : GoString
drift_type_mandate = text "PREFERENCE_PROMOTED_TO_MANDATE"

abbrev pub reason_temporality : GoString
reason_temporality = text "TEMPORARITY_DRIFT_DETECTED"

abbrev pub reason_epistemic : GoString
reason_epistemic = text "EPISTEMIC_MODAL_SHIFT"

abbrev pub reason_scope : GoString
reason_scope = text "SCOPE_EXPANSION_VIOLATION"

abbrev pub reason_trust : GoString
reason_trust = text "SOURCE_TRUST_COLLAPSE"

abbrev pub reason_mandate : GoString
reason_mandate = text "PREFERENCE_PROMOTED_TO_AUTHORITY"

pub record InvariantDimensions : Type 0 where
  pub temporality_start : ℤ
  pub temporality_end : ℤ
  pub epistemic_start : ℤ
  pub epistemic_end : ℤ
  pub scope_start : ℤ
  pub scope_end : ℤ
  pub trust_start : ℤ
  pub trust_end : ℤ
  pub mandate_start : ℤ
  pub mandate_end : ℤ

abbrev pub default_dimensions : InvariantDimensions
default_dimensions = record {
  temporality_start = pos 0;
  temporality_end = pos 23;
  epistemic_start = pos 24;
  epistemic_end = pos 47;
  scope_start = pos 48;
  scope_end = pos 71;
  trust_start = pos 72;
  trust_end = pos 95;
  mandate_start = pos 96;
  mandate_end = pos 127;
}
