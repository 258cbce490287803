-- ===== src/Commands/Staging/Run.antt =====
-- The main function of cmd/staging-verify/main.go. Its goroutines are the scheduling choices of the
-- `World`; the monitor and the ledger that it shares with the wrapper and the drift coordinator are
-- handed on from one part to the next.
use veraxis_memory_admissibi.Prelude.{ℕ, false, Option, none, some, List, [], if◌then◌else◌}
use veraxis_memory_admissibi.Prelude.Bytes.{Bytes, GoString, text, bytes_eq}
use veraxis_memory_admissibi.Prelude.Int.{pos}
use veraxis_memory_admissibi.Prelude.Result.{Result, ok, err}
use veraxis_memory_admissibi.Platform.{Platform}
use veraxis_memory_admissibi.Quarantine.Event.{RevocationEvent}
use veraxis_memory_admissibi.Quarantine.Ledger
use veraxis_memory_admissibi.Quarantine.Ledger.{Codec, FileLedger, LedgerError, replay_genesis}
use veraxis_memory_admissibi.Quarantine.Ledger.Recovery.{RecoveryError, new_file_ledger}
use veraxis_memory_admissibi.Quarantine.Ledger.ErrorText.{ledger_error_text, recovery_error_text}
use veraxis_memory_admissibi.Quarantine.Monitor.{
  RuntimeMonitor, new_runtime_monitor, swap_active_snapshot,
}
use veraxis_memory_admissibi.Quarantine.Snapshot.{compile_snapshot}
use veraxis_memory_admissibi.Orchestrator.{execute_agent_handoff}
use veraxis_memory_admissibi.Orchestrator.Types.{HandoffCoordinator, HandoffError, HandoffResult}
use veraxis_memory_admissibi.Ops.{evaluate_readiness}
use veraxis_memory_admissibi.Axis.Types.{Floats, default_dimensions}
use veraxis_memory_admissibi.Axis.Worker.{DriftMonitorCoordinator, new_drift_monitor_coordinator}
use veraxis_memory_admissibi.Commands.Staging.{
  StagingVerificationReport, ControlledProvider, passes, raw_bypass_detected, conclude_staging,
  hex_string, compute_reference_hash, staging_base_vector_for_target, staging_mutate_subspace,
}
use veraxis_memory_admissibi.Commands.Staging.Fixture.{
  pre_seed_event, staging_wrapper, verify_handoff, drill_handoff, raw_poison, new_provider,
  staging_coordinator, staging_telemetry, staging_health, at_second,
}
use veraxis_memory_admissibi.Commands.Staging.World.{DrillFloats, World}
use veraxis_memory_admissibi.Commands.Staging.Checks.{
  failure, with_wrapper, record_windows, readiness_text, replayed, windows_of, wal_text,
  handoff_report, overflow, backpressure_text, poison_drill, drill_report,
}

-- How the run ends: with exit code 1 before its checks are through, in a panic, or with a final
-- report, an exit code, and what is in the provider and in the monitor.
pub data StagingEnd : Type 0 where
  stopped : StagingVerificationReport → StagingEnd
  panics : StagingEnd
  finished : StagingVerificationReport → ℕ → ControlledProvider → Option RuntimeMonitor → StagingEnd

-- `writeReportAndExit`, but for the file: the report, with a final status where it had none.
unfoldable pub write_report_and_exit : StagingVerificationReport → StagingEnd
write_report_and_exit r =
    if bytes_eq r.final_status []
    then stopped (record r { final_status = text "STAGING_REJECTED" })
    else stopped r

-- The texts that stand for a result that nothing set.
unfoldable pub fill_in : StagingVerificationReport → StagingVerificationReport
fill_in r =
    let or_not_executed : GoString → GoString =
      λ s. if bytes_eq s [] then text "fail: not executed" else s in
    record r {
      poison_drill_result = or_not_executed r.poison_drill_result;
      audit_replay_result = or_not_executed r.audit_replay_result;
    }

module _ ⦃p : Platform⦄ where
  module _ ⦃f : Floats⦄ (w : World) where
    abbrev pub initial_report : StagingVerificationReport
    initial_report = record {
      release_tag = text "v0.1.0-reference";
      reference_hash = compute_reference_hash w.notes w.tag w.readme;
      wal_replay_result = [];
      runtime_snapshot_hash = [];
      runtime_snapshot_version = 0;
      readiness_result = [];
      handoff_result = [];
      backpressure_result = [];
      poison_drill_result = [];
      session_map_id = [];
      session_map_merkle_root = [];
      mcr_id = [];
      mcr_lineage_digest = [];
      audit_replay_result = [];
      raw_context_bypass_detected = false;
      final_status = text "STAGING_REJECTED";
      verified_at = w.started_at;
    }

    unfoldable pub finish_staging :
        ControlledProvider → Option RuntimeMonitor → Option StagingVerificationReport → StagingEnd
    unfolding fill_in conclude_staging
    finish_staging provider monitor none = panics
    finish_staging provider monitor (some r) =
        let (report, code) = conclude_staging w.report_written (fill_in r) in
        finished report code provider monitor

    -- From the handoff of the poisoned memory on.
    unfoldable pub after_drill :
        Option HandoffCoordinator
        → ControlledProvider
        → StagingVerificationReport
        → Option (GoString × DriftMonitorCoordinator)
        → StagingEnd
    unfolding finish_staging drill_report raw_bypass_detected record_windows windows_of
    after_drill coordinator provider r none = panics
    after_drill coordinator provider r (some (t, c)) =
        let now_on = with_wrapper (staging_wrapper c.monitor) coordinator in
        let seen = record_windows (windows_of w.drill_looks now_on drill_handoff) provider in
        finish_staging seen c.monitor (
          drill_report w (raw_bypass_detected seen raw_poison)
            (execute_agent_handoff w.drill_at (some w.drill_looks) now_on drill_handoff).0
            (record r { poison_drill_result = t }))

    -- The first handoff, and what its coordinator is afterwards.
    abbrev pub verify_run :
        RuntimeMonitor → Bytes → Result HandoffError HandoffResult × Option HandoffCoordinator
    verify_run monitor key =
        execute_agent_handoff w.handoff_at (some w.handoff_looks)
          (some (staging_coordinator (text "key_staging_01") passes (some monitor) key))
          verify_handoff

    -- What the provider has seen of the first handoff.
    abbrev pub verify_seen : RuntimeMonitor → Bytes → ControlledProvider
    verify_seen monitor key =
        record_windows
          (windows_of w.handoff_looks
            (some (staging_coordinator (text "key_staging_01") passes (some monitor) key))
            verify_handoff)
          new_provider

    -- The report behind the first handoff and the one that overflows.
    abbrev pub handoffs_report :
        RuntimeMonitor → Bytes → StagingVerificationReport → StagingVerificationReport
    handoffs_report monitor key r = record (handoff_report w (verify_run monitor key).0 r) {
      backpressure_result = backpressure_text w (overflow w monitor key);
    }

  -- The drift coordinator of the drill.
  abbrev pub drill_axis :
      ⦃f : Floats⦄ → DrillFloats → FileLedger → RuntimeMonitor → DriftMonitorCoordinator
  drill_axis ⦃f⦄ d l monitor =
      new_drift_monitor_coordinator (some l) (some monitor) default_dimensions d.threshold (pos 5)

  module _ ⦃f : Floats⦄ (json : Codec) (d : DrillFloats) (w : World) where
    -- From the key on.
    unfoldable pub after_key :
        FileLedger → RuntimeMonitor → StagingVerificationReport → Result GoString Bytes → StagingEnd
    unfolding write_report_and_exit handoff_report overflow backpressure_text poison_drill
        after_drill
    after_key l monitor r (err e) = write_report_and_exit (record r { handoff_result = failure e })
    after_key l monitor r (ok key) =
        let start = default_dimensions.temporality_start in
        let end = default_dimensions.temporality_end in
        let anchor = staging_base_vector_for_target d.vectors start end in
        after_drill w (verify_run w monitor key).1 (verify_seen w monitor key)
          (handoffs_report w monitor key r)
          (poison_drill json d w (drill_axis d l monitor) anchor
            (staging_mutate_subspace d.vectors anchor start end d.factor))

    -- From the replay on.
    unfoldable pub after_replay :
        FileLedger → Result LedgerError (List RevocationEvent) → StagingEnd
    unfolding after_key wal_text
    after_replay l replay =
        let snap = compile_snapshot (replayed replay) 200 (at_second 1700000001) in
        let monitor = swap_active_snapshot (some snap) (new_runtime_monitor w.monitor_at) in
        let readiness =
          evaluate_readiness w.readiness_at (staging_telemetry snap) (staging_health snap) in
        after_key l monitor
          (record (initial_report w) {
            wal_replay_result = wal_text w replay;
            runtime_snapshot_hash = hex_string snap.snapshot_hash;
            runtime_snapshot_version = snap.version;
            readiness_result = readiness_text readiness;
          })
          w.generated_key

    unfoldable pub after_seed : Result LedgerError (Unit {0}) × FileLedger → StagingEnd
    unfolding after_replay
    after_seed (err e, l) = write_report_and_exit (record (initial_report w) {
      wal_replay_result = failure (ledger_error_text w.file_texts e);
    })
    after_seed (ok u, l) = after_replay l (replay_genesis json l)

    unfoldable pub after_open : Result RecoveryError FileLedger → StagingEnd
    unfolding after_seed
    after_open (err e) = write_report_and_exit (record (initial_report w) {
      wal_replay_result = failure (recovery_error_text w.file_texts e);
    })
    after_open (ok l) = after_seed (Ledger.append_event json w.seed_device pre_seed_event l)

    -- `main`
    unfoldable pub staging_main : StagingEnd
    unfolding after_open
    staging_main = after_open (new_file_ledger w.opened)
