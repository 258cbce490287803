-- ===== src/Commands/Staging/Checks.antt =====
-- The checks of the main function of cmd/staging-verify/main.go, each with the text that it reports.
-- The goroutines are the scheduling choices of the `World`.
use veraxis_memory_admissibi.Prelude.{
  Bool, true, false, ◌==◌, ◌||◌, not, Option, none, some, List, [], ◌∷◌, ◌++◌, length, get_elem?,
  if◌then◌else◌,
}
use veraxis_memory_admissibi.Prelude.Bytes.{Bytes, GoString, text, bytes_eq}
use veraxis_memory_admissibi.Prelude.Int.{pos}
use veraxis_memory_admissibi.Prelude.Result.{Result, ok, err}
use veraxis_memory_admissibi.Platform.{Platform}
use veraxis_memory_admissibi.Audit.Lineage.{verify_lineage_record}
use veraxis_memory_admissibi.Merkle.{LeafRecord}
use veraxis_memory_admissibi.Quarantine.Event.{RevocationEvent}
use veraxis_memory_admissibi.Quarantine.Ledger.{Codec, LedgerError}
use veraxis_memory_admissibi.Quarantine.Ledger.ErrorText.{ledger_error_text}
use veraxis_memory_admissibi.Quarantine.Monitor.{RuntimeMonitor}
use veraxis_memory_admissibi.Gateway.{
  LlmMessage, ClientWrapper, GatewayError, sanitize_context_window, tombstone_quarantine,
}
use veraxis_memory_admissibi.Gateway.Inference.Types.{Context, Provider}
use veraxis_memory_admissibi.Orchestrator.{admit, turn_of, execute_agent_handoff}
use veraxis_memory_admissibi.Orchestrator.ErrorText.{handoff_error_text}
use veraxis_memory_admissibi.Orchestrator.Types.{
  HandoffCoordinator, Handoff, HandoffError, HandoffResult,
}
use veraxis_memory_admissibi.Ops.{ReadinessResult}
use veraxis_memory_admissibi.Axis.Types.{Floats}
use veraxis_memory_admissibi.Axis.{StructuralVector, VectorError, cosine_similarity}
use veraxis_memory_admissibi.Axis.Worker.{
  MemoryTransformationJob, DriftMonitorCoordinator, submit_non_blocking, take_job, process_job,
}
use veraxis_memory_admissibi.Axis.Worker.Loop.{Inputs}
use veraxis_memory_admissibi.Commands.{contains}
use veraxis_memory_admissibi.Commands.Staging.{
  StagingVerificationReport, ControlledProvider, passes, context_ends, controlled_invoke, pass,
  hex_string,
}
use veraxis_memory_admissibi.Commands.Staging.Fixture.{overflow_handoff, staging_coordinator}
use veraxis_memory_admissibi.Commands.Staging.World.{
  DrillFloats, Worker, in_time, late, never, World, drill_job,
}

abbrev pub fail : GoString
fail = text "fail"

abbrev pub failure : GoString → GoString
failure e = text "fail: " ++ e

-- The coordinator that a handoff finds which meets another one: with a slot taken where the other
-- was admitted.
abbrev pub after_admission :
    HandoffCoordinator
    → Result HandoffError (HandoffCoordinator × ClientWrapper × Provider)
    → HandoffCoordinator
after_admission c (err e) = c
after_admission c (ok (held, w, provider)) = held

-- A handoff that runs after the wrapper's monitor changed.
abbrev pub with_wrapper : ClientWrapper → Option HandoffCoordinator → Option HandoffCoordinator
with_wrapper w none = none
with_wrapper w (some c) = some (record c { gateway_wrapper = some w })

-- The provider behind the windows that a coordinator handed to it.
unfoldable pub record_windows : List (List LlmMessage) → ControlledProvider → ControlledProvider
unfolding controlled_invoke
record_windows [] p = p
record_windows (window ∷ windows) p = record_windows windows (controlled_invoke passes window p).1

abbrev pub readiness_text : ReadinessResult → GoString
readiness_text r = if r.ready then pass else failure r.reason

abbrev pub or_zero : ⦃f : Floats⦄ → Result VectorError f.Double → f.Double
or_zero ⦃f⦄ (ok sim) = sim
or_zero ⦃f⦄ (err e) = f.nought

abbrev pub replayed : Result LedgerError (List RevocationEvent) → List RevocationEvent
replayed (ok events) = events
replayed (err e) = []

-- The windows that a handoff hands to its provider: one, unless it ends before.
module _ ⦃p : Platform⦄ where
  abbrev pub sanitized_windows :
      Result GatewayError (List LlmMessage × List LeafRecord) → List (List LlmMessage)
  sanitized_windows (err e) = []
  sanitized_windows (ok (messages, leaves)) = messages ∷ []

  abbrev pub admitted_windows :
      Context
      → Handoff
      → Result HandoffError (HandoffCoordinator × ClientWrapper × Provider)
      → List (List LlmMessage)
  admitted_windows ctx h (err e) = []
  admitted_windows ctx h (ok (held, w, provider)) =
      if ctx 1
      then []
      else sanitized_windows
          (sanitize_context_window (ctx 2) (some w) (turn_of h) h.raw_scratchpad h.bindings)

  unfoldable pub windows_of : Context → Option HandoffCoordinator → Handoff → List (List LlmMessage)
  windows_of ctx c h = admitted_windows ctx h (admit ctx c)

  abbrev pub judge_payload :
      Bool → HandoffResult → StagingVerificationReport → LlmMessage → StagingVerificationReport
  judge_payload leaked h r m =
      let tombstoned = bytes_eq m.content tombstone_quarantine in
      record r {
        poison_drill_result =
            if tombstoned then r.poison_drill_result else text "fail: poison memory not tombstoned";
        raw_context_bypass_detected = r.raw_context_bypass_detected || (not tombstoned || leaked);
        mcr_id = hex_string h.consequence_token.mcr_id;
        mcr_lineage_digest = hex_string h.consequence_token.lineage_digest;
        audit_replay_result =
            if verify_lineage_record h.consequence_token h.inference_block.session_map
            then pass
            else fail;
      }

  module _ ⦃f : Floats⦄ (w : World) where
    unfoldable pub wal_text : Result LedgerError (List RevocationEvent) → GoString
    wal_text (err e) = fail ++ (text ": " ++ ledger_error_text w.file_texts e)
    wal_text (ok events) = if length events == 1 then pass else fail

    unfoldable pub handoff_report :
        Result HandoffError HandoffResult → StagingVerificationReport → StagingVerificationReport
    handoff_report (err e) r = record r {
      handoff_result = failure (handoff_error_text w.context_text e);
    }
    handoff_report (ok h) r = record r {
      handoff_result = pass;
      session_map_id = hex_string h.inference_block.session_map.session_map_id;
      session_map_merkle_root = hex_string h.inference_block.session_map.merkle_root;
    }

    -- The handoff of the main goroutine to the provider that is blocked, which answers it only with the
    -- end of its context.
    unfoldable pub overflow : RuntimeMonitor → Bytes → Result HandoffError HandoffResult
    overflow monitor key =
        let c = staging_coordinator (text "key_staging_02") context_ends (some monitor) key in
        let seen =
          if w.blocked_waits then after_admission c (admit w.blocked_looks (some c)) else c in
        (execute_agent_handoff w.overflow_at (some w.overflow_looks) (some seen) overflow_handoff).0

    unfoldable pub backpressure_text : Result HandoffError HandoffResult → GoString
    backpressure_text (ok h) = text "fail: overflow handoff was accepted"
    backpressure_text (err e) =
        let t = handoff_error_text w.context_text e in
        if contains t (text "ORCHESTRATOR_BACKPRESSURE") then pass else failure t

    -- What the handoff of the poisoned memory adds; `none` is the panic of an empty payload. `leaked`
    -- says that the provider saw the raw text.
    unfoldable pub drill_report :
        Bool
        → Result HandoffError HandoffResult
        → StagingVerificationReport
        → Option StagingVerificationReport
    drill_report leaked (err e) r = some (record r {
      poison_drill_result = failure (text "turn3 " ++ handoff_error_text w.context_text e);
      raw_context_bypass_detected = true;
    })
    drill_report leaked (ok h) r = elim (get_elem? h.sanitized_payload 0) [
      | none ↦ none
      | some m ↦ some (judge_payload leaked h r m)
    ]

  module _ ⦃f : Floats⦄ where
    -- The look at the counters at the deadline, or before it once a memory is quarantined.
    unfoldable pub deadline_text : DriftMonitorCoordinator → GoString
    deadline_text c =
        if c.stats.quarantined == 0
        then text "fail: worker did not quarantine before deadline"
        else pass

  module _ ⦃f : Floats⦄ (json : Codec) where
    -- A worker that takes the job at the front of the queue and ends it.
    abbrev pub work_on :
        Inputs
        → DriftMonitorCoordinator
        → Option (MemoryTransformationJob × DriftMonitorCoordinator)
        → DriftMonitorCoordinator
    work_on i c none = c
    work_on i c (some (job, rest)) = (process_job json i.device i.random i.now i.later job rest).1

    abbrev pub worked : Inputs → DriftMonitorCoordinator → DriftMonitorCoordinator
    worked i c = work_on i c (take_job c.job_queue c)

    unfoldable pub await_worker :
        Worker → DriftMonitorCoordinator → GoString × DriftMonitorCoordinator
    unfolding deadline_text
    await_worker (in_time i) c = (deadline_text (worked i c), worked i c)
    await_worker (late i) c = (deadline_text c, worked i c)
    await_worker never c = (deadline_text c, c)

  module _ ⦃f : Floats⦄ (json : Codec) (w : World) where
    unfoldable pub after_submission :
        Option (Bool × DriftMonitorCoordinator) → Option (GoString × DriftMonitorCoordinator)
    unfolding await_worker
    after_submission none = none
    after_submission (some (false, c)) = some (text "fail: axis queue saturated", c)
    after_submission (some (true, c)) = some (await_worker json w.worker c)

  module _ ⦃f : Floats⦄ (json : Codec) (d : DrillFloats) (w : World) where
    -- The poison drill up to the counters: its result and the drift coordinator; `none` is a panic.
    unfoldable pub poison_drill :
        DriftMonitorCoordinator
        → StructuralVector
        → Option StructuralVector
        → Option (GoString × DriftMonitorCoordinator)
    unfolding after_submission
    poison_drill c anchor none = none
    poison_drill c anchor (some mutated) =
        let sim = or_zero (cosine_similarity anchor mutated (pos 0) (pos 127)) in
        if d.at_most sim d.blindspot
        then some (text "fail: global blindspot similarity too low " ++ d.four_digits sim, c)
        else after_submission json w (submit_non_blocking (drill_job anchor mutated) c)
