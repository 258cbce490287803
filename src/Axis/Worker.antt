-- ===== src/Axis/Worker.antt =====
-- pkg/axis/worker.go: the coordinator that checks memories for drift and quarantines those that
-- drifted. The channel of jobs is its values, its capacity and whether it is closed; `none` is a panic
-- of the runtime. The random bytes and the clock's readings are arguments.
pub mod Blocking
pub mod Loop
pub mod Drained
pub mod Counts
pub mod Quarantines
use veraxis_memory_admissibi.Prelude.{
  ℕ, ◌+◌, ◌%◌, ◌^◌, Bool, true, false, ◌==◌, Option, none, some, List, [], ◌∷◌, ◌++◌, ltb, length,
  if◌then◌else◌,
}
use veraxis_memory_admissibi.Prelude.Bytes.{Bytes, GoString, text, bytes_eq, zeros}
use veraxis_memory_admissibi.Prelude.Int.{ℤ, pos, negsuc}
use veraxis_memory_admissibi.Prelude.Result.{Result, ok, err}
use veraxis_memory_admissibi.Prelude.Time.{Time}
use veraxis_memory_admissibi.Platform.{Platform}
use veraxis_memory_admissibi.Quarantine.Event.{EventType, QuarantineReason, RevocationEvent}
use veraxis_memory_admissibi.Quarantine.Monitor
use veraxis_memory_admissibi.Quarantine.Monitor.{RuntimeMonitor, compile_and_swap}
use veraxis_memory_admissibi.Quarantine.Ledger
use veraxis_memory_admissibi.Quarantine.Ledger.{LedgerError, Codec, Device, FileLedger}
use veraxis_memory_admissibi.Axis.{StructuralVector, AxisCheckResult, evaluate_drift}
use veraxis_memory_admissibi.Axis.Types.{
  Floats, InvariantDimensions, drift_type_temporality, drift_type_epistemic, drift_type_scope,
  drift_type_trust, drift_type_mandate,
}

pub record WorkerStats : Type 0 where
  pub processed : ℕ
  pub quarantined : ℕ
  pub dropped : ℕ
  pub errors : ℕ

pub data JobError : Type 0 where
  event_id_failure : JobError
  ledger_failure : LedgerError → JobError

-- `Add(1)` on a counter of 64 bits.
abbrev pub count_up : ℕ → ℕ
count_up n = (n + 1) % 2 ^ 64

unfoldable pub map_drift_to_quarantine : GoString → QuarantineReason × EventType
map_drift_to_quarantine t =
    if bytes_eq t drift_type_temporality
    then (QuarantineReason.poisoning_suspected, EventType.poisoning_suspected)
    else if bytes_eq t drift_type_epistemic
    then (QuarantineReason.poisoning_suspected, EventType.poisoning_suspected)
    else if bytes_eq t drift_type_scope
    then (QuarantineReason.cross_session_leak, EventType.cross_session_leak)
    else if bytes_eq t drift_type_trust
    then (QuarantineReason.retroactive_revocation, EventType.quarantine_memory)
    else if bytes_eq t drift_type_mandate
    then (QuarantineReason.prompt_injection_detected, EventType.prompt_injection_detected)
    else (QuarantineReason.poisoning_suspected, EventType.quarantine_memory)

module _ ⦃f : Floats⦄ where
  pub record MemoryTransformationJob : Type 0 where
    pub memory_id : Bytes
    pub anchor_vector : StructuralVector
    pub mutated_vector : StructuralVector
    pub operator_id : GoString
    pub source_pipeline : GoString
    pub policy_snapshot : Bytes

  pub record DriftMonitorCoordinator : Type 0 where
    pub ledger : Option FileLedger
    pub monitor : Option RuntimeMonitor
    pub dimensions : InvariantDimensions
    pub threshold : f.Double
    pub job_queue : List MemoryTransformationJob
    pub capacity : ℕ
    pub closed : Bool
    pub stats : WorkerStats

  unfoldable pub new_drift_monitor_coordinator :
      Option FileLedger
      → Option RuntimeMonitor
      → InvariantDimensions
      → f.Double
      → ℤ
      → DriftMonitorCoordinator
  new_drift_monitor_coordinator ledger monitor dims threshold buffer = record {
    ledger = ledger;
    monitor = monitor;
    dimensions = dims;
    threshold = threshold;
    job_queue = [];
    capacity = elim buffer [ pos n ↦ if n == 0 then 1 else n | negsuc n ↦ 1 ];
    closed = false;
    stats = record { processed = 0; quarantined = 0; dropped = 0; errors = 0 };
  }

  -- `StopAccepting`; closing a closed channel panics.
  unfoldable pub stop_accepting : DriftMonitorCoordinator → Option DriftMonitorCoordinator
  stop_accepting c = if c.closed then none else some (record c { closed = true })

  -- A send on a closed channel panics, in a select too.
  unfoldable pub submit_non_blocking :
      MemoryTransformationJob → DriftMonitorCoordinator → Option (Bool × DriftMonitorCoordinator)
  submit_non_blocking job c =
      if c.closed
      then none
      else if ltb (length c.job_queue) c.capacity
      then some (true, record c { job_queue = c.job_queue ++ job ∷ [] })
      else some
          (false, record c { stats = record (c.stats) { dropped = count_up c.stats.dropped } })

  -- The job at the front of the queue, which a worker takes.
  abbrev pub take_job :
      List MemoryTransformationJob
      → DriftMonitorCoordinator
      → Option (MemoryTransformationJob × DriftMonitorCoordinator)
  take_job [] c = none
  take_job (job ∷ rest) c = some (job, record c { job_queue = rest })

  -- The event of `eventForDrift`, once its identifier is drawn.
  unfoldable pub drift_event :
      Time → Bytes → MemoryTransformationJob → AxisCheckResult → RevocationEvent
  unfolding map_drift_to_quarantine
  drift_event now id job res =
      let (reason, type) = map_drift_to_quarantine res.drift_type in
      record {
        event_id = id;
        memory_id = job.memory_id;
        event_type = type;
        reason = reason;
        operator_id = job.operator_id;
        source = job.source_pipeline;
        created_at = now;
        policy_hash = job.policy_snapshot;
        previous_state = [];
        new_state = text "quarantined";
        signature = zeros 64;
        signing_key_id = [];
      }

  abbrev pub failed : DriftMonitorCoordinator → DriftMonitorCoordinator
  failed c = record c { stats = record (c.stats) { errors = count_up c.stats.errors } }

  -- `eventForDrift`; `none` says that the random source failed.
  unfoldable pub event_for_drift :
      Time
      → Option Bytes
      → MemoryTransformationJob
      → AxisCheckResult
      → Result JobError RevocationEvent
  unfolding drift_event
  event_for_drift now none job res = err event_id_failure
  event_for_drift now (some id) job res = ok (drift_event now id job res)

  module _ ⦃p : Platform⦄ where
    -- The write-ahead append; without a ledger there is none.
    unfoldable pub store_drift :
        Codec
        → Device
        → RevocationEvent
        → Option FileLedger
        → Result LedgerError (Unit {0}) × Option FileLedger
    store_drift json d event none = (ok tt, none)
    store_drift json d event (some l) =
        let (stored, l') = Ledger.append_event json d event l in (stored, some l')

    unfoldable pub publish_drift :
        Time → RevocationEvent → Option RuntimeMonitor → Option RuntimeMonitor
    publish_drift now event none = none
    publish_drift now event (some m) = some (compile_and_swap now (Monitor.append_event event m)).1

    -- `processJob` behind the write to the ledger.
    unfoldable pub after_store :
        Time
        → RevocationEvent
        → DriftMonitorCoordinator
        → Result LedgerError (Unit {0}) × Option FileLedger
        → Result JobError (Unit {0}) × DriftMonitorCoordinator
    unfolding publish_drift
    after_store now event c (err e, l) = (err (ledger_failure e), failed (record c { ledger = l }))
    after_store now event c (ok u, l) = (
      ok tt,
      record c {
        ledger = l;
        monitor = publish_drift now event c.monitor;
        stats = record (c.stats) { quarantined = count_up c.stats.quarantined };
      },
    )

    -- `processJob` behind `eventForDrift`.
    unfoldable pub quarantine_drifted :
        Codec
        → Device
        → Time
        → DriftMonitorCoordinator
        → Result JobError RevocationEvent
        → Result JobError (Unit {0}) × DriftMonitorCoordinator
    unfolding after_store store_drift
    quarantine_drifted json d now c (err e) = (err e, failed c)
    quarantine_drifted json d now c (ok event) =
        after_store now event c (store_drift json d event c.ledger)

    -- `processJob`; `now` and `later` are its two readings of the clock.
    unfoldable pub process_job :
        Codec
        → Device
        → Option Bytes
        → Time
        → Time
        → MemoryTransformationJob
        → DriftMonitorCoordinator
        → Result JobError (Unit {0}) × DriftMonitorCoordinator
    unfolding quarantine_drifted event_for_drift
    process_job json d random now later job c =
        let counted : DriftMonitorCoordinator = record c {
          stats = record (c.stats) { processed = count_up c.stats.processed };
        } in
        let res = evaluate_drift job.anchor_vector job.mutated_vector c.dimensions c.threshold in
        if res.axis_preserved
        then (ok tt, counted)
        else quarantine_drifted json d later counted (event_for_drift now random job res)
