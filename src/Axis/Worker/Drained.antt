-- ===== src/Axis/Worker/Drained.antt =====
-- A worker at a closed queue.
use veraxis_memory_admissibi.Prelude.{
  ℕ, suc, ◌+◌, ◌%◌, ◌^◌, ◌≡◌, refl, ◌∙◌, Bool, true, false, Option, some, List, [], ◌∷◌, length,
  arith, if◌then◌else◌,
}
use veraxis_memory_admissibi.Prelude.Bytes.{Bytes}
use veraxis_memory_admissibi.Prelude.Result.{Result, ok, err}
use veraxis_memory_admissibi.Prelude.Time.{Time}
use veraxis_memory_admissibi.Platform.{Platform}
use veraxis_memory_admissibi.Quarantine.Event.{RevocationEvent}
use veraxis_memory_admissibi.Quarantine.Ledger.{LedgerError, Codec, Device, FileLedger}
use veraxis_memory_admissibi.Axis.{evaluate_drift}
use veraxis_memory_admissibi.Axis.Types.{Floats}
use veraxis_memory_admissibi.Axis.Worker.{
  JobError, MemoryTransformationJob, DriftMonitorCoordinator, count_up, event_for_drift,
  store_drift, after_store, quarantine_drifted, process_job,
}
use veraxis_memory_admissibi.Axis.Worker.Loop.{
  Inputs, worker_goes_on, worker_returns, receive_round, worker_round, worker_loop,
}

module _ ⦃f : Floats⦄ ⦃p : Platform⦄ where
  -- The queue is as it was, and so is the count of the processed jobs.
  record Keeps (c d : DriftMonitorCoordinator) : Type 0 where
    pub queue : d.job_queue ≡ c.job_queue
    pub still_closed : d.closed ≡ c.closed
    pub count : d.stats.processed ≡ c.stats.processed

  after_store-Keeps :
      (now : Time) (e : RevocationEvent) (c : DriftMonitorCoordinator)
      (stored : Result LedgerError (Unit {0}) × Option FileLedger)
      → Keeps c (after_store now e c stored).1
  unfolding after_store
  after_store-Keeps now e c (err x, l) = record { queue = refl; still_closed = refl; count = refl }
  after_store-Keeps now e c (ok u, l) = record { queue = refl; still_closed = refl; count = refl }

  quarantine-Keeps :
      (json : Codec) (d : Device) (now : Time) (c : DriftMonitorCoordinator)
      (made : Result JobError RevocationEvent)
      → Keeps c (quarantine_drifted json d now c made).1
  unfolding quarantine_drifted
  quarantine-Keeps json d now c (err x) = record { queue = refl; still_closed = refl; count = refl }
  quarantine-Keeps json d now c (ok e) = after_store-Keeps now e c (store_drift json d e c.ledger)

  if-Keeps :
      (kept : Bool) (c : DriftMonitorCoordinator)
      (q : Result JobError (Unit {0}) × DriftMonitorCoordinator)
      → Keeps c q.1
      → Keeps c (if kept then (ok tt, c) else q).1
  if-Keeps true c q h = record { queue = refl; still_closed = refl; count = refl }
  if-Keeps false c q h = h

  counted : DriftMonitorCoordinator → DriftMonitorCoordinator
  counted c = record c { stats = record (c.stats) { processed = count_up c.stats.processed } }

  process_job-Keeps :
      (json : Codec) (d : Device) (random : Option Bytes) (now later : Time)
      (job : MemoryTransformationJob) (c : DriftMonitorCoordinator)
      → Keeps (counted c) (process_job json d random now later job c).1
  unfolding process_job counted
  process_job-Keeps json d random now later job c =
      let res = evaluate_drift job.anchor_vector job.mutated_vector c.dimensions c.threshold in
      if-Keeps res.axis_preserved (counted c) _
        (quarantine-Keeps json d later (counted c) (event_for_drift now random job res))

  round-returns :
      (json : Codec) (i : Inputs) (c : DriftMonitorCoordinator)
      → i.done ≡ false
      → c.job_queue ≡ []
      → c.closed ≡ true
      → worker_round json i.device i.random i.now i.later i.done c ≡ worker_returns
  unfolding worker_round receive_round
  round-returns json i c live queued closed = simp (live, queued, closed) refl

  round-takes :
      (json : Codec) (i : Inputs) (c : DriftMonitorCoordinator) (job : MemoryTransformationJob)
      (jobs : List MemoryTransformationJob)
      → i.done ≡ false
      → c.job_queue ≡ job ∷ jobs
      → worker_round json i.device i.random i.now i.later i.done c
        ≡ worker_goes_on
            (process_job json i.device i.random i.now i.later job (record c { job_queue = jobs })).1
  unfolding worker_round receive_round
  round-takes json i c job jobs live queued = simp (live, queued) refl

  -- A worker whose context stays open, at a queue that is closed, returns after as many rounds as
  -- there are jobs and one more, on whatever devices and with whatever random bytes; the queue is
  -- empty then, and the count of the processed jobs has gained the number of the jobs, up to the wrap
  -- of 64 bits.
  pub worker-drains :
      (json : Codec) (inputs : ℕ → Inputs) (jobs : List MemoryTransformationJob)
      (c : DriftMonitorCoordinator)
      → ((n : ℕ) → (inputs n).done ≡ false)
      → c.job_queue ≡ jobs
      → c.closed ≡ true
      → (d : DriftMonitorCoordinator) × (worker_loop json inputs (suc (length jobs)) c ≡ some d)
        × (d.job_queue ≡ [])
        × (d.stats.processed % 2 ^ 64 ≡ (c.stats.processed + length jobs) % 2 ^ 64)
  unfolding worker_loop counted
  worker-drains json inputs [] c live queued closed = (
    c,
    rw (worker_loop, round-returns json (inputs 0) c (live 0) queued closed) refl,
    queued,
    omega arith,
  )
  worker-drains json inputs (job ∷ jobs) c live queued closed =
      let i = inputs 0 in
      let rest : DriftMonitorCoordinator = record c { job_queue = jobs } in
      let next = (process_job json i.device i.random i.now i.later job rest).1 in
      let kept = process_job-Keeps json i.device i.random i.now i.later job rest in
      let (d, looped, empty, count) =
        worker-drains json (λ n. inputs (suc n)) jobs next (λ n. live (suc n)) kept.queue
          (kept.still_closed ∙ closed) in
      (
        d,
        rw (worker_loop, round-takes json i c job jobs (live 0) queued) looped,
        empty,
        omega (arith, count, kept.count),
      )
