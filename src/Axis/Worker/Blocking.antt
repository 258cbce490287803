-- ===== src/Axis/Worker/Blocking.antt =====
-- What a processed job leaves in the ledger and in the monitor.
use mathlib.Core.Path.{subst}
use veraxis_memory_admissibi.Prelude.{
  ◌≡◌, ◌≢◌, refl, sym, ap, ◌∙◌, Bool, true, false, Option, some, List, [], ◌∷◌, ◌++◌, All,
  if◌then◌else◌, arith,
}
use veraxis_memory_admissibi.Prelude.Bytes.{Bytes, GoString}
use veraxis_memory_admissibi.Prelude.Result.{Result, ok, err}
use veraxis_memory_admissibi.Prelude.Time.{Time}
use veraxis_memory_admissibi.Platform.{Platform}
use veraxis_memory_admissibi.Evaluate.{use_memory}
use veraxis_memory_admissibi.Quarantine.Event.{RevocationEvent}
use veraxis_memory_admissibi.Quarantine.Monitor.{
  RuntimeMonitor, compile_and_swap, lookup, next_version, append_event,
}
use veraxis_memory_admissibi.Quarantine.Snapshot.{apply_events, no_blocks, lookup_blocks}
use mathlib.Core.List.{append_assoc}
use veraxis_memory_admissibi.Quarantine.Snapshot.History.{
  Blocking, KeepsBlocked, blocked_until_cleared,
}
use veraxis_memory_admissibi.Quarantine.Ledger.{LedgerError, Codec, Device, FileLedger}
use veraxis_memory_admissibi.Quarantine.Ledger.Recovery.{
  UpToDate, UpToDate-lookup, publish_each, publish_each-UpToDate, events_of,
}
use veraxis_memory_admissibi.Axis.{evaluate_drift}
use veraxis_memory_admissibi.Axis.Types.{Floats}
use veraxis_memory_admissibi.Axis.Worker.{
  JobError, MemoryTransformationJob, DriftMonitorCoordinator, count_up, map_drift_to_quarantine,
  drift_event, event_for_drift, store_drift, publish_drift, after_store, quarantine_drifted,
  process_job,
}

-- Every type of drift gives an event that blocks.
pub map_drift-Blocking : (t : GoString) → Blocking (map_drift_to_quarantine t).1
unfolding map_drift_to_quarantine
map_drift-Blocking t = ground arith

module _ ⦃f : Floats⦄ ⦃p : Platform⦄ where
  published :
      (now : Time) (e : RevocationEvent) (m : RuntimeMonitor)
      → UpToDate (compile_and_swap now (append_event e m)).1 (m.ledger ++ e ∷ [])
  unfolding compile_and_swap append_event
  published now e m = record {
    version = next_version (append_event e m);
    at = now;
    events = refl;
    active = refl;
  }

  after_store-ok :
      (now : Time) (e : RevocationEvent) (c : DriftMonitorCoordinator) (m : RuntimeMonitor)
      (stored : Result LedgerError (Unit {0}) × Option FileLedger)
      → c.monitor ≡ some m
      → (after_store now e c stored).0 ≡ ok tt
      → (after_store now e c stored).1.monitor ≡ some (compile_and_swap now (append_event e m)).1
  unfolding after_store publish_drift
  after_store-ok now e c m (err x, l) watched h = absurd (cc)
  after_store-ok now e c m (ok u, l) watched h = rw watched refl

  after_store-err :
      (now : Time) (e : RevocationEvent) (c : DriftMonitorCoordinator)
      (stored : Result LedgerError (Unit {0}) × Option FileLedger) (x : JobError)
      → (after_store now e c stored).0 ≡ err x
      → ((after_store now e c stored).1.monitor ≡ c.monitor)
        × ((after_store now e c stored).1.stats.errors ≡ count_up c.stats.errors)
  unfolding after_store
  after_store-err now e c (err y, l) x h = (refl, refl)
  after_store-err now e c (ok u, l) x h = absurd (cc)

  failed_branch :
      (kept : Bool) (c : DriftMonitorCoordinator)
      (q : Result JobError (Unit {0}) × DriftMonitorCoordinator) (x : JobError)
      → (if kept then (ok tt, c) else q).0 ≡ err x
      → (if kept then (ok tt, c) else q) ≡ q
  failed_branch true c q x h = absurd (cc)
  failed_branch false c q x h = refl

  quarantine-failed :
      (json : Codec) (d : Device) (now : Time) (c : DriftMonitorCoordinator)
      (made : Result JobError RevocationEvent) (x : JobError)
      → (quarantine_drifted json d now c made).0 ≡ err x
      → ((quarantine_drifted json d now c made).1.monitor ≡ c.monitor)
        × ((quarantine_drifted json d now c made).1.stats.errors ≡ count_up c.stats.errors)
  unfolding quarantine_drifted
  quarantine-failed json d now c (err e) x h = (refl, refl)
  quarantine-failed json d now c (ok e) x h =
      after_store-err now e c (store_drift json d e c.ledger) x h

  -- A memory whose vector drifted, and whose job is processed without an error under a coordinator
  -- with a monitor, is not used from then on: whatever events are published afterwards, as long as
  -- none of them clears that memory.
  pub process_job-blocks :
      (json : Codec) (d : Device) (id : Bytes) (now later : Time) (job : MemoryTransformationJob)
      (c : DriftMonitorCoordinator) (m : RuntimeMonitor) (ps : List (RevocationEvent × Time))
      → c.monitor ≡ some m
      → (evaluate_drift job.anchor_vector job.mutated_vector c.dimensions
          c.threshold).axis_preserved
        ≡ false
      → (process_job json d (some id) now later job c).0 ≡ ok tt
      → All (KeepsBlocked job.memory_id) (events_of ps)
      → (after : RuntimeMonitor) × ((process_job json d (some id) now later job c).1.monitor
          ≡ some after)
        × ((lookup (publish_each ps after) job.memory_id).decision ≢ use_memory)
  unfolding process_job quarantine_drifted event_for_drift drift_event
  process_job-blocks json d id now later job c m ps watched drifted done keep =
      let res = evaluate_drift job.anchor_vector job.mutated_vector c.dimensions c.threshold in
      let e = drift_event now id job res in
      let after = (compile_and_swap later (append_event e m)).1 in
      let up_to_date = publish_each-UpToDate ps after (m.ledger ++ e ∷ []) (published later e m) in
      let stored =
        after_store-ok later e
          (record c { stats = record (c.stats) { processed = count_up c.stats.processed } }) m
          (store_drift json d e c.ledger) watched (rw drifted at done) in
      (
        after,
        rw drifted stored,
        subst (λ r. r.decision ≢ use_memory)
            (sym (
              UpToDate-lookup (publish_each ps after) ((m.ledger ++ e ∷ []) ++ events_of ps)
                job.memory_id up_to_date
              ∙ ap (λ es. lookup_blocks (apply_events no_blocks es) job.memory_id)
                  (append_assoc m.ledger (e ∷ []) (events_of ps))))
            (blocked_until_cleared m.ledger (events_of ps) e (map_drift-Blocking res.drift_type)
              keep),
      )

  -- When processing a job fails, for want of a random identifier or at the ledger, the monitor is as
  -- it was, and the errors count one more.
  pub process_job-failed :
      (json : Codec) (d : Device) (random : Option Bytes) (now later : Time)
      (job : MemoryTransformationJob) (c : DriftMonitorCoordinator) (x : JobError)
      → (process_job json d random now later job c).0 ≡ err x
      → ((process_job json d random now later job c).1.monitor ≡ c.monitor)
        × ((process_job json d random now later job c).1.stats.errors ≡ count_up c.stats.errors)
  unfolding process_job quarantine_drifted event_for_drift
  process_job-failed json d random now later job c x h =
      let res = evaluate_drift job.anchor_vector job.mutated_vector c.dimensions c.threshold in
      let counted : DriftMonitorCoordinator = record c {
        stats = record (c.stats) { processed = count_up c.stats.processed };
      } in
      let q = quarantine_drifted json d later counted (event_for_drift now random job res) in
      let same = failed_branch res.axis_preserved counted q x h in
      subst (λ r. (r.1.monitor ≡ c.monitor) × (r.1.stats.errors ≡ count_up c.stats.errors))
        (sym same)
        (quarantine-failed json d later counted (event_for_drift now random job res) x
          (ap (λ r. r.0) (sym same) ∙ h))
