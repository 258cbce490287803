-- ===== src/Commands/Staging/Poisoned.antt =====
-- The staging verification's handoff of the poisoned memory, behind a drill that passed.
use veraxis_memory_admissibi.Prelude.{
  ◌≡◌, refl, ap, ◌∙◌, true, false, Option, some, List, [], ◌∷◌, length,
}
use veraxis_memory_admissibi.Prelude.Bytes.{Bytes, text, bytes_eq}
use veraxis_memory_admissibi.Prelude.Time.{unix}
use veraxis_memory_admissibi.Prelude.Result.{Result, ok}
use veraxis_memory_admissibi.Platform.{Platform}
use veraxis_memory_admissibi.Evaluate.{quarantine}
use veraxis_memory_admissibi.Audit.Lineage.{
  verify_lineage_record, compile_lineage_record, verify_lineage-compiled,
}
use veraxis_memory_admissibi.Quarantine.Monitor.{RuntimeMonitor, lookup}
use veraxis_memory_admissibi.Gateway.{LlmMessage, tombstone_quarantine}
use veraxis_memory_admissibi.Orchestrator.{
  handoff_block, new_handoff_coordinator, execute_agent_handoff,
}
use veraxis_memory_admissibi.SessionMap.{sign_session_map}
use veraxis_memory_admissibi.Orchestrator.Types.{HandoffError, HandoffResult}
use veraxis_memory_admissibi.Orchestrator.Completion.{handoff_result}
use veraxis_memory_admissibi.Axis.Types.{Floats}
use veraxis_memory_admissibi.Axis.Worker.{DriftMonitorCoordinator}
use veraxis_memory_admissibi.Commands.{cache_of}
use veraxis_memory_admissibi.Commands.Staging.{
  StagingVerificationReport, ControlledProvider, pass, passes, raw_bypass_detected,
}
use veraxis_memory_admissibi.Commands.Staging.Fixture.{
  poison_memory_id, user, clean_messages, staging_coordinator, staging_wrapper, staging_profiles,
  drill_handoff, raw_poison, new_provider,
}
use veraxis_memory_admissibi.Commands.Staging.World.{World}
use veraxis_memory_admissibi.Commands.Staging.Checks.{record_windows, windows_of, drill_report}
use veraxis_memory_admissibi.Commands.Staging.Run.{
  StagingEnd, finished, finish_staging, after_drill,
}
use veraxis_memory_admissibi.Commands.Staging.Turns.{
  IsOpen, windows_of-sanitized, staging_handoff-completes, staging_response,
}
use veraxis_memory_admissibi.Commands.Staging.Sanitised.{poison_window, windows-clean}
use veraxis_memory_admissibi.Commands.Staging.Accepted.{
  accepted_report, drilled_report, drill_report-tombstoned, drilled-accepted,
}

module _ ⦃p : Platform⦄ ⦃f : Floats⦄ (w : World) (key : Bytes) (sized : length key ≡ 64)
    (live : IsOpen w.drill_looks) where
  -- The handoff of the poisoned memory under the monitor that the drill leaves.
  abbrev pub drill_result : RuntimeMonitor → HandoffResult
  drill_result after =
      handoff_result w.drill_at
        (staging_coordinator (text "key_staging_01") passes (some after) key)
        (staging_wrapper (some after)) (cache_of staging_profiles) drill_handoff staging_response

  abbrev drill_outcome : RuntimeMonitor → Result HandoffError HandoffResult
  drill_outcome after =
      (execute_agent_handoff w.drill_at (some w.drill_looks)
        (some (staging_coordinator (text "key_staging_01") passes (some after) key))
        drill_handoff).0

  drill_handoff-completes : (after : RuntimeMonitor) → drill_outcome after ≡ ok (drill_result after)
  unfolding text
  drill_handoff-completes after =
      staging_handoff-completes (text "key_staging_01") (some after) key sized w.drill_looks live
        w.drill_at drill_handoff (λ e. cc) (λ e. cc) (λ e. cc)

  drill_token-verifies :
      (after : RuntimeMonitor)
      → verify_lineage_record
          (drill_result after).consequence_token
          (drill_result after).inference_block.session_map
        ≡ true
  unfolding compile_lineage_record sign_session_map handoff_block text bytes_eq
  drill_token-verifies after =
      verify_lineage-compiled drill_handoff.mcr_id (drill_result after).inference_block.session_map
        drill_handoff.eep_id drill_handoff.aep_id (unix w.drill_at)
        (drill_result after).consequence_token refl

  -- What follows the handoff, of the windows that it handed over and of its result.
  abbrev end_of :
      ControlledProvider
      → StagingVerificationReport
      → Option RuntimeMonitor
      → List (List LlmMessage)
      → Result HandoffError HandoffResult
      → StagingEnd
  end_of provider r monitor windows res =
      let seen = record_windows windows provider in
      finish_staging w seen monitor (drill_report w (raw_bypass_detected seen raw_poison) res r)

  abbrev end_under :
      ControlledProvider → StagingVerificationReport → Option RuntimeMonitor → StagingEnd
  end_under provider r monitor =
      let c = staging_coordinator (text "key_staging_01") passes monitor key in
      end_of provider r monitor (windows_of w.drill_looks (some c) drill_handoff)
        (execute_agent_handoff w.drill_at (some w.drill_looks) (some c) drill_handoff).0

  -- The run behind a drill that passes, when the provider has seen the clean window.
  pub after_drill-accepted :
      (m after : RuntimeMonitor) (c : DriftMonitorCoordinator) (provider : ControlledProvider)
      (r : StagingVerificationReport)
      → c.monitor ≡ some after
      → (lookup after poison_memory_id).decision ≡ quarantine
      → provider ≡ record_windows (clean_messages ∷ []) new_provider
      → w.report_written ≡ true
      → r.wal_replay_result ≡ pass
      → r.readiness_result ≡ pass
      → r.handoff_result ≡ pass
      → r.backpressure_result ≡ pass
      → r.raw_context_bypass_detected ≡ false
      → after_drill w
          (some (staging_coordinator (text "key_staging_01") passes (some m) key))
          provider
          r
          (some (pass, c))
        ≡ finished
            (accepted_report w
              (drilled_report w (drill_result after) (record r { poison_drill_result = pass })))
            0
            (record_windows ((user tombstone_quarantine ∷ []) ∷ []) provider)
            (some after)
  unfolding after_drill new_handoff_coordinator
  after_drill-accepted m after c provider r monitored held seen written wal ready handed pressed
        clean =
      let r' : StagingVerificationReport = record r { poison_drill_result = pass } in
      let tombstoned = poison_window after held in
      let handed_over =
        windows_of-sanitized (text "key_staging_01") passes (some after) key sized w.drill_looks
          live drill_handoff
        ∙ ap (λ x. x ∷ []) tombstoned in
      let windows = (user tombstone_quarantine ∷ []) ∷ [] in
      let unseen : raw_bypass_detected (record_windows windows provider) raw_poison ≡ false =
        ap (λ q. raw_bypass_detected (record_windows windows q) raw_poison) seen ∙ windows-clean in
      ap (end_under provider r') monitored
      ∙ (ap (λ ws. end_of provider r' (some after) ws (drill_outcome after)) handed_over
          ∙ (ap (end_of provider r' (some after) windows) (drill_handoff-completes after)
              ∙ (ap (finish_staging w (record_windows windows provider) (some after))
                    (drill_report-tombstoned w _ (drill_result after) r' unseen tombstoned)
                  ∙ drilled-accepted w (record_windows windows provider) (some after)
                      (drill_result after) r' written (drill_token-verifies after) wal ready handed
                      pressed refl clean)))
