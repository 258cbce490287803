-- ===== src/Axis/Worker/Counts.antt =====
-- What the count of the quarantined memories says.
use mathlib.Core.Path.{subst}
use veraxis_memory_admissibi.Prelude.{
  ◌≡◌, ◌≢◌, refl, ap, ◌∙◌, Bool, true, false, Option, none, some, [], if◌then◌else◌,
}
use veraxis_memory_admissibi.Prelude.Bytes.{Bytes}
use veraxis_memory_admissibi.Prelude.Result.{Result, ok, err}
use veraxis_memory_admissibi.Prelude.Time.{Time}
use veraxis_memory_admissibi.Platform.{Platform}
use veraxis_memory_admissibi.Evaluate.{use_memory}
use veraxis_memory_admissibi.Quarantine.Event.{RevocationEvent}
use veraxis_memory_admissibi.Quarantine.Ledger.{Codec, Device, FileLedger, LedgerError}
use veraxis_memory_admissibi.Quarantine.Monitor.{RuntimeMonitor, lookup}
use veraxis_memory_admissibi.Axis.Types.{Floats}
use veraxis_memory_admissibi.Axis.{evaluate_drift}
use veraxis_memory_admissibi.Axis.Worker.{
  JobError, MemoryTransformationJob, DriftMonitorCoordinator, count_up, event_for_drift,
  after_store, store_drift, quarantine_drifted, process_job,
}
use veraxis_memory_admissibi.Axis.Worker.Blocking.{process_job-blocks}

module _ ⦃f : Floats⦄ ⦃p : Platform⦄ where
  -- The result of a job that raised the count of the quarantined memories.
  after_store-counts :
      (now : Time) (e : RevocationEvent) (c : DriftMonitorCoordinator)
      (stored : Result LedgerError (Unit {0}) × Option FileLedger)
      → c.stats.quarantined ≡ 0
      → (after_store now e c stored).1.stats.quarantined ≢ 0
      → (after_store now e c stored).0 ≡ ok tt
  unfolding after_store
  after_store-counts now e c (err x, l) none_yet counted = absurd (counted none_yet)
  after_store-counts now e c (ok u, l) none_yet counted = refl

  quarantine-counts :
      (json : Codec) (d : Device) (now : Time) (c : DriftMonitorCoordinator)
      (made : Result JobError RevocationEvent)
      → c.stats.quarantined ≡ 0
      → (quarantine_drifted json d now c made).1.stats.quarantined ≢ 0
      → (quarantine_drifted json d now c made).0 ≡ ok tt
  unfolding quarantine_drifted
  quarantine-counts json d now c (err x) none_yet counted = absurd (counted none_yet)
  quarantine-counts json d now c (ok e) none_yet counted =
      after_store-counts now e c (store_drift json d e c.ledger) none_yet counted

  counted_branch :
      (kept : Bool) (c : DriftMonitorCoordinator)
      (q : Result JobError (Unit {0}) × DriftMonitorCoordinator)
      → c.stats.quarantined ≡ 0
      → (if kept then (ok tt, c) else q).1.stats.quarantined ≢ 0
      → (kept ≡ false) × ((if kept then (ok tt, c) else q) ≡ q)
  counted_branch true c q none_yet counts = absurd (counts none_yet)
  counted_branch false c q none_yet counts = (refl, refl)

  -- A job that raises the count from 0 ends without an error, and its vector drifted.
  process_job-drifted :
      (json : Codec) (d : Device) (random : Option Bytes) (now later : Time)
      (job : MemoryTransformationJob) (c : DriftMonitorCoordinator)
      → c.stats.quarantined ≡ 0
      → (process_job json d random now later job c).1.stats.quarantined ≢ 0
      → ((evaluate_drift job.anchor_vector job.mutated_vector c.dimensions
            c.threshold).axis_preserved
          ≡ false)
        × ((process_job json d random now later job c).0 ≡ ok tt)
  unfolding process_job
  process_job-drifted json d random now later job c none_yet counts =
      let res = evaluate_drift job.anchor_vector job.mutated_vector c.dimensions c.threshold in
      let counted : DriftMonitorCoordinator = record c {
        stats = record (c.stats) { processed = count_up c.stats.processed };
      } in
      let made = event_for_drift now random job res in
      let q = quarantine_drifted json d later counted made in
      let (drifted, same) = counted_branch res.axis_preserved counted q none_yet counts in
      let q_counts = subst (λ r. r.1.stats.quarantined ≢ 0) same counts in
      (drifted, ap (λ r. r.0) same ∙ quarantine-counts json d later counted made none_yet q_counts)

  no_event :
      (json : Codec) (d : Device) (now later : Time) (job : MemoryTransformationJob)
      (c : DriftMonitorCoordinator)
      → (evaluate_drift job.anchor_vector job.mutated_vector c.dimensions
          c.threshold).axis_preserved
        ≡ false
      → (process_job json d none now later job c).0 ≢ ok tt
  unfolding process_job event_for_drift quarantine_drifted
  no_event json d now later job c drifted = rw drifted (λ e. cc)

  -- A job that raises the count of the quarantined memories from 0, under a coordinator with a
  -- monitor, leaves its memory blocked.
  pub process_job-counts :
      (json : Codec) (d : Device) (random : Option Bytes) (now later : Time)
      (job : MemoryTransformationJob) (c : DriftMonitorCoordinator) (m : RuntimeMonitor)
      → c.monitor ≡ some m
      → c.stats.quarantined ≡ 0
      → (process_job json d random now later job c).1.stats.quarantined ≢ 0
      → (after : RuntimeMonitor) × ((process_job json d random now later job c).1.monitor
          ≡ some after)
        × ((lookup after job.memory_id).decision ≢ use_memory)
  process_job-counts json d none now later job c m watched none_yet counts =
      let (drifted, done) = process_job-drifted json d none now later job c none_yet counts in
      absurd (no_event json d now later job c drifted done)
  process_job-counts json d (some id) now later job c m watched none_yet counts =
      let (drifted, done) = process_job-drifted json d (some id) now later job c none_yet counts in
      process_job-blocks json d id now later job c m [] watched drifted done tt
