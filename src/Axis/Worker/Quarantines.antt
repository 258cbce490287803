-- ===== src/Axis/Worker/Quarantines.antt =====
-- What a job whose vector drifted leaves behind, when nothing fails.
use veraxis_memory_admissibi.Prelude.{◌≡◌, ap, ◌∙◌, true, false, some, [], ◌∷◌, ◌++◌, arith}
use veraxis_memory_admissibi.Prelude.Bytes.{Bytes, GoString}
use veraxis_memory_admissibi.Prelude.Result.{ok}
use veraxis_memory_admissibi.Prelude.Time.{Time}
use veraxis_memory_admissibi.Platform.{Platform}
use veraxis_memory_admissibi.Evaluate.{quarantine}
use veraxis_memory_admissibi.Quarantine.Event.{RevocationEvent}
use veraxis_memory_admissibi.Quarantine.Ledger.{Codec, FileLedger, healthy}
use veraxis_memory_admissibi.Quarantine.Ledger.Frames.{frame}
use veraxis_memory_admissibi.Quarantine.Ledger.RoundTrip.{IsStored, append_event-frame}
use veraxis_memory_admissibi.Quarantine.Monitor.{
  RuntimeMonitor, append_event, compile_and_swap, lookup,
}
use veraxis_memory_admissibi.Quarantine.Snapshot.{
  compile_snapshot, no_blocks, apply_events, lookup_blocks,
}
use veraxis_memory_admissibi.Quarantine.Snapshot.History.{Quarantining, quarantined_at_once}
use veraxis_memory_admissibi.Axis.Types.{Floats}
use veraxis_memory_admissibi.Axis.{AxisCheckResult, evaluate_drift}
use veraxis_memory_admissibi.Axis.Worker.{
  MemoryTransformationJob, DriftMonitorCoordinator, map_drift_to_quarantine, drift_event,
  event_for_drift, store_drift, publish_drift, after_store, quarantine_drifted, process_job,
  count_up,
}

map_drift-Quarantining : (t : GoString) → Quarantining (map_drift_to_quarantine t).1
unfolding map_drift_to_quarantine
map_drift-Quarantining t = ground arith

module _ ⦃f : Floats⦄ ⦃p : Platform⦄ where
  -- The monitor behind the first event of a drift quarantines the memory of the job.
  pub first_drift-quarantines :
      (now later : Time) (id : Bytes) (job : MemoryTransformationJob) (res : AxisCheckResult)
      (m : RuntimeMonitor)
      → m.ledger ≡ []
      → (lookup
          (compile_and_swap later (append_event (drift_event now id job res) m)).1
          job.memory_id).decision
        ≡ quarantine
  unfolding compile_and_swap append_event lookup drift_event compile_snapshot
  first_drift-quarantines now later id job res m none_yet =
      let e = drift_event now id job res in
      ap (λ es. (lookup_blocks (apply_events no_blocks (es ++ e ∷ [])) job.memory_id).decision)
        none_yet
      ∙ quarantined_at_once e (map_drift-Quarantining res.drift_type)

  -- A job under a coordinator with a ledger and a monitor, whose vector drifted, with no fault.
  module _ (json : Codec) (id : Bytes) (now later : Time) (job : MemoryTransformationJob)
      (c : DriftMonitorCoordinator) (l : FileLedger) (m : RuntimeMonitor) where
    abbrev pub drifted_event : RevocationEvent
    drifted_event =
        drift_event now id job
          (evaluate_drift job.anchor_vector job.mutated_vector c.dimensions c.threshold)

    pub process_job-quarantines :
        (evaluate_drift job.anchor_vector job.mutated_vector c.dimensions
            c.threshold).axis_preserved
          ≡ false
        → c.ledger ≡ some l
        → c.monitor ≡ some m
        → l.is_open ≡ true
        → c.stats.quarantined ≡ 0
        → IsStored json drifted_event
        → ((process_job json healthy (some id) now later job c).1.stats.quarantined ≡ 1)
          × ((process_job json healthy (some id) now later job c).1.monitor
              ≡ some (compile_and_swap later (append_event drifted_event m)).1)
    unfolding process_job event_for_drift quarantine_drifted store_drift after_store publish_drift
    process_job-quarantines drifted written watched opened none_yet stored =
        let e = drifted_event in
        let counted : DriftMonitorCoordinator = record c {
          stats = record (c.stats) { processed = count_up c.stats.processed };
        } in
        let l' : FileLedger = record l { content = l.content ++ frame stored.payload } in
        let kept : store_drift json healthy e c.ledger ≡ (ok tt, some l') =
          ap (store_drift json healthy e) written
          ∙ ap (λ q. (q.0, some q.1)) (append_event-frame json e l opened stored) in
        let ran : process_job json healthy (some id) now later job c
            ≡ after_store later e counted (ok tt, some l') =
          rw drifted (ap (after_store later e counted) kept) in
        (
          ap (λ r. r.1.stats.quarantined) ran ∙ ap count_up none_yet,
          ap (λ r. r.1.monitor) ran ∙ ap (publish_drift later e) watched,
        )
