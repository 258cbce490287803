-- ===== src/Commands/Staging/Verdict.antt =====
-- What the verdict and the record of the provider say.
use mathlib.Core.List.{append_assoc, append-nil}
use veraxis_memory_admissibi.Prelude.{
  ℕ, ◌≡◌, ◌↔◌, refl, sym, ap, ◌∙◌, Bool, true, false, List, [], ◌∷◌, ◌++◌, arith, length, zero, suc,
}
use veraxis_memory_admissibi.Prelude.Bytes.{text, bytes_eq, bytes_eq_iff}
use veraxis_memory_admissibi.Prelude.Int.{ℤ}
use veraxis_memory_admissibi.Gateway.{LlmMessage}
use veraxis_memory_admissibi.Axis.Types.{Floats}
use veraxis_memory_admissibi.Axis.{StructuralVector}
use veraxis_memory_admissibi.Commands.Staging.{
  StagingVerificationReport, ControlledProvider, Gate, passes, context_ends, controlled_invoke,
  pass, all_pass, conclude_staging, VectorFloats, base_elements, scale_down, sum_squares,
  staging_base_vector_for_target,
}

pub exit_code :
    (written good : Bool) (r : StagingVerificationReport)
    → all_pass r ≡ good
    → ((conclude_staging written r).1 ≡ 0) ↔ ((written ≡ true) × (good ≡ true))
unfolding conclude_staging bytes_eq text
exit_code false good r h = (λ e. absurd (cc), λ (e, _). absurd (cc))
exit_code true true r h = rw h (λ _. (refl, refl), λ _. refl)
exit_code true false r h = rw h (λ e. absurd (cc), λ (_, e). absurd (cc))

pub gates_iff :
    (r : StagingVerificationReport)
    → (all_pass r ≡ true) ↔ (
        (r.wal_replay_result ≡ pass)
        × (r.readiness_result ≡ pass)
        × (r.handoff_result ≡ pass)
        × (r.backpressure_result ≡ pass)
        × (r.poison_drill_result ≡ pass)
        × (r.audit_replay_result ≡ pass)
        × (r.raw_context_bypass_detected ≡ false))
unfolding all_pass
gates_iff r =
    let wal = bytes_eq_iff r.wal_replay_result pass in
    let readiness = bytes_eq_iff r.readiness_result pass in
    let handoff = bytes_eq_iff r.handoff_result pass in
    let backpressure = bytes_eq_iff r.backpressure_result pass in
    let drill = bytes_eq_iff r.poison_drill_result pass in
    let audit = bytes_eq_iff r.audit_replay_result pass in ground arith

-- The verification exits with 0 exactly when its report could be written, its six results are
-- passes and no raw context was seen by the provider.
pub staging_accepted_iff :
    (written : Bool) (r : StagingVerificationReport)
    → ((conclude_staging written r).1 ≡ 0) ↔ (
        (written ≡ true)
        × (r.wal_replay_result ≡ pass)
        × (r.readiness_result ≡ pass)
        × (r.handoff_result ≡ pass)
        × (r.backpressure_result ≡ pass)
        × (r.poison_drill_result ≡ pass)
        × (r.audit_replay_result ≡ pass)
        × (r.raw_context_bypass_detected ≡ false))
staging_accepted_iff written r =
    let code = exit_code written (all_pass r) r refl in
    let gates = gates_iff r in
    (
      λ e.
          let (stored, good) = code.0 e in
          let (a, b, c, d, f, g, h) = gates.0 good in (stored, a, b, c, d, f, g, h),
      λ (stored, a, b, c, d, f, g, h). code.1 (stored, gates.1 (a, b, c, d, f, g, h)),
    )

-- A provider that is called with one window after the other.
abbrev pub invoke_each : List (Gate × List LlmMessage) → ControlledProvider → ControlledProvider
invoke_each [] p = p
invoke_each ((gate, window) ∷ calls) p = invoke_each calls (controlled_invoke gate window p).1

-- The windows of the calls that pass the gate.
abbrev pub windows : List (Gate × List LlmMessage) → List (List LlmMessage)
windows [] = []
windows ((passes, window) ∷ calls) = window ∷ windows calls
windows ((context_ends, window) ∷ calls) = windows calls

-- The provider records every window that it answered, in order, and no other.
pub invoke_each-windows :
    (calls : List (Gate × List LlmMessage)) (p : ControlledProvider)
    → (invoke_each calls p).messages ≡ p.messages ++ windows calls
unfolding controlled_invoke
invoke_each-windows [] p = sym (append-nil p.messages)
invoke_each-windows ((passes, window) ∷ calls) p =
    invoke_each-windows calls (controlled_invoke passes window p).1
    ∙ append_assoc p.messages (window ∷ []) (windows calls)
invoke_each-windows ((context_ends, window) ∷ calls) p = invoke_each-windows calls p

module _ ⦃f : Floats⦄ (v : VectorFloats) where
  length-base_elements : (start end : ℤ) (n i : ℕ) → length (base_elements v start end n i) ≡ n
  unfolding base_elements
  length-base_elements start end zero i = refl
  length-base_elements start end (suc n) i = ap suc (length-base_elements start end n (suc i))

  length-scale_down :
      (mag : f.Double) (xs : StructuralVector) → length (scale_down v mag xs) ≡ length xs
  unfolding scale_down
  length-scale_down mag [] = refl
  length-scale_down mag (x ∷ xs) = ap suc (length-scale_down mag xs)

  -- The base vector has the size that the drift check wants, whatever its target is.
  pub length-staging_base_vector :
      (start end : ℤ) → length (staging_base_vector_for_target v start end) ≡ 128
  unfolding staging_base_vector_for_target
  length-staging_base_vector start end =
      length-scale_down (f.sqrt (sum_squares v f.nought (base_elements v start end 128 0)))
        (base_elements v start end 128 0)
      ∙ length-base_elements start end 128 0
