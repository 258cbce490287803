-- ===== src/Commands/Staging/Overflow.antt =====
-- The overflowing handoff of the staging verification, and what its clean window comes out as.
use veraxis_memory_admissibi.Prelude.{◌≡◌, refl, ap, ◌∙◌, Bool, true, some, if◌then◌else◌, length}
use veraxis_memory_admissibi.Prelude.Bytes.{Bytes, text}
use veraxis_memory_admissibi.Prelude.Result.{Result, ok, err}
use veraxis_memory_admissibi.Platform.{Platform}
use veraxis_memory_admissibi.Quarantine.Monitor.{RuntimeMonitor}
use veraxis_memory_admissibi.Orchestrator.{admit, conclude_handoff, execute_agent_handoff}
use veraxis_memory_admissibi.Orchestrator.ErrorText.{handoff_error_text}
use veraxis_memory_admissibi.Orchestrator.Types.{backpressure, HandoffCoordinator, HandoffError}
use veraxis_memory_admissibi.Gateway.{ClientWrapper}
use veraxis_memory_admissibi.Gateway.Inference.Types.{Provider}
use veraxis_memory_admissibi.Axis.Types.{Floats}
use veraxis_memory_admissibi.Commands.{contains, has_prefix}
use veraxis_memory_admissibi.Commands.Staging.{pass, context_ends}
use veraxis_memory_admissibi.Commands.Staging.Fixture.{overflow_handoff, staging_coordinator}
use veraxis_memory_admissibi.Commands.Staging.World.{World}
use veraxis_memory_admissibi.Commands.Staging.Checks.{after_admission, overflow, backpressure_text}
use veraxis_memory_admissibi.Commands.Staging.Turns.{IsOpen, admits, refuses}

module _ ⦃p : Platform⦄ ⦃f : Floats⦄ (w : World) where
  abbrev blocked : RuntimeMonitor → Bytes → HandoffCoordinator
  blocked monitor key = staging_coordinator (text "key_staging_02") context_ends (some monitor) key

  backpressure-passes : backpressure_text w (err backpressure) ≡ pass
  unfolding backpressure_text handoff_error_text contains has_prefix text
  backpressure-passes = refl

  refused_run :
      (seen : HandoffCoordinator)
      → admit w.overflow_looks (some seen) ≡ err backpressure
      → (execute_agent_handoff w.overflow_at (some w.overflow_looks) (some seen) overflow_handoff).0
        ≡ err backpressure
  unfolding execute_agent_handoff conclude_handoff
  refused_run seen refused =
      ap (λ m. (conclude_handoff w.overflow_at w.overflow_looks overflow_handoff (some seen) m).0)
        refused

  seen_taken :
      (waits : Bool) (c held : HandoffCoordinator)
      (m : Result HandoffError (HandoffCoordinator × ClientWrapper × Provider)) (x : ClientWrapper)
      (provider : Provider)
      → waits ≡ true
      → m ≡ ok (held, x, provider)
      → (if waits then after_admission c m else c) ≡ held
  seen_taken waits c held m x provider h e = simp (h, e) refl

  -- While the other goroutine's handoff waits with the slot, the main one's is refused, and the check
  -- of the backpressure passes.
  pub overflow-passes :
      (monitor : RuntimeMonitor) (key : Bytes)
      → length key ≡ 64
      → IsOpen w.blocked_looks
      → IsOpen w.overflow_looks
      → w.blocked_waits ≡ true
      → backpressure_text w (overflow w monitor key) ≡ pass
  unfolding overflow
  overflow-passes monitor key sized live₁ live₂ waits =
      let id = text "key_staging_02" in
      let taken = admits id context_ends (some monitor) key sized w.blocked_looks live₁ in
      let refused = refuses id context_ends (some monitor) key sized w.overflow_looks live₂ in
      let seen = seen_taken w.blocked_waits (blocked monitor key) _ _ _ _ waits taken in
      ap (backpressure_text w)
        (refused_run _ (ap (λ c. admit w.overflow_looks (some c)) seen ∙ refused))
      ∙ backpressure-passes
