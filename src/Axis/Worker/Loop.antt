-- ===== src/Axis/Worker/Loop.antt =====
-- The loop of a worker (`workerLoop` of pkg/axis/worker.go).
use veraxis_memory_admissibi.Prelude.{
  ℕ, zero, suc, ◌==◌, ◌≤◌, arith, Bool, Option, none, some, if◌then◌else◌,
}
use veraxis_memory_admissibi.Prelude.Bytes.{Bytes}
use veraxis_memory_admissibi.Prelude.Int.{ℤ, pos, negsuc}
use veraxis_memory_admissibi.Prelude.Time.{Time}
use veraxis_memory_admissibi.Platform.{Platform}
use veraxis_memory_admissibi.Quarantine.Ledger.{Codec, Device}
use veraxis_memory_admissibi.Axis.Types.{Floats}
use veraxis_memory_admissibi.Axis.Worker.{
  WorkerStats, MemoryTransformationJob, DriftMonitorCoordinator, take_job, process_job,
}

module _ ⦃f : Floats⦄ ⦃p : Platform⦄ where
  -- One round of `workerLoop`: the select takes a job, or finds the channel closed and empty, or
  -- takes the end of the context; a channel that is open and empty makes it wait.
  pub data Round : Type 0 where
    worker_waits worker_returns : Round
    worker_goes_on : DriftMonitorCoordinator → Round

  unfoldable pub receive_round :
      Codec
      → Device
      → Option Bytes
      → Time
      → Time
      → DriftMonitorCoordinator
      → Option (MemoryTransformationJob × DriftMonitorCoordinator)
      → Round
  unfolding process_job
  receive_round json d random now later c none = if c.closed then worker_returns else worker_waits
  receive_round json d random now later c (some (job, rest)) =
      worker_goes_on (process_job json d random now later job rest).1

  -- `done` says that the select takes the end of the context.
  unfoldable pub worker_round :
      Codec → Device → Option Bytes → Time → Time → Bool → DriftMonitorCoordinator → Round
  unfolding receive_round
  worker_round json d random now later done c =
      if done
      then worker_returns
      else receive_round json d random now later c (take_job c.job_queue c)

  -- What the world gives to a round.
  pub record Inputs : Type 0 where
    pub device : Device
    pub random : Option Bytes
    pub now : Time
    pub later : Time
    pub done : Bool

  -- The loop, for at most `fuel` rounds: the coordinator when the worker returns. `none` is a worker
  -- that waits or that has rounds left.
  unfoldable pub worker_loop :
      Codec → (ℕ → Inputs) → ℕ → DriftMonitorCoordinator → Option DriftMonitorCoordinator
  unfolding worker_round
  worker_loop json inputs zero c = none
  worker_loop json inputs (suc fuel) c =
      let i = inputs 0 in
      elim (worker_round json i.device i.random i.now i.later i.done c) [
        | worker_waits ↦ none
        | worker_returns ↦ some c
        | worker_goes_on next ↦ worker_loop json (λ n. inputs (suc n)) fuel next
      ]

-- How many workers `Start` starts.
unfoldable worker_count : ℤ → ℕ
worker_count (pos n) = if n == 0 then 1 else n
worker_count (negsuc n) = 1

-- At least one worker starts, whatever the count is.
worker_count_lem : (n : ℤ) → 1 ≤ worker_count n
unfolding worker_count
worker_count_lem (pos n) = ground arith
worker_count_lem (negsuc n) = omega arith

-- `Stats`
abbrev worker_stats : ⦃f : Floats⦄ → DriftMonitorCoordinator → WorkerStats
worker_stats c = c.stats
