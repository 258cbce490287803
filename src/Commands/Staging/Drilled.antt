-- ===== src/Commands/Staging/Drilled.antt =====
-- The poison drill of the staging verification, when a worker quarantines the memory in time.
use mathlib.Core.Path.{subst}
use veraxis_memory_admissibi.Prelude.{◌≡◌, refl, sym, ap, ◌∙◌, true, false, Option, some, [], ◌∷◌}
use veraxis_memory_admissibi.Prelude.Bytes.{Bytes}
use veraxis_memory_admissibi.Prelude.Int.{pos}
use veraxis_memory_admissibi.Platform.{Platform}
use veraxis_memory_admissibi.Evaluate.{quarantine}
use veraxis_memory_admissibi.Quarantine.Event.{RevocationEvent}
use veraxis_memory_admissibi.Quarantine.Ledger.{Codec, Device, FileLedger, healthy}
use veraxis_memory_admissibi.Quarantine.Ledger.RoundTrip.{IsStored}
use veraxis_memory_admissibi.Quarantine.Monitor.{
  RuntimeMonitor, append_event, compile_and_swap, lookup,
}
use veraxis_memory_admissibi.Axis.Types.{Floats, default_dimensions}
use veraxis_memory_admissibi.Axis.{StructuralVector, cosine_similarity, evaluate_drift}
use veraxis_memory_admissibi.Axis.Worker.{
  DriftMonitorCoordinator, process_job, new_drift_monitor_coordinator, submit_non_blocking,
}
use veraxis_memory_admissibi.Axis.Worker.Quarantines.{
  drifted_event, process_job-quarantines, first_drift-quarantines,
}
use veraxis_memory_admissibi.Axis.Worker.Loop.{Inputs}
use veraxis_memory_admissibi.Commands.Staging.{pass}
use veraxis_memory_admissibi.Commands.Staging.Fixture.{poison_memory_id}
use veraxis_memory_admissibi.Commands.Staging.World.{DrillFloats, in_time, World, drill_job}
use veraxis_memory_admissibi.Commands.Staging.Checks.{
  or_zero, worked, deadline_text, await_worker, after_submission, poison_drill,
}
use veraxis_memory_admissibi.Commands.Staging.Run.{drill_axis}

module _ ⦃p : Platform⦄ ⦃f : Floats⦄ (json : Codec) (d : DrillFloats) (w : World) (l : FileLedger)
    (m : RuntimeMonitor) (anchor mutated : StructuralVector) (i : Inputs) (id : Bytes) where
  -- The coordinator behind the submission, and when a worker has taken the job.
  abbrev taken_axis : DriftMonitorCoordinator
  taken_axis = drill_axis d l m

  abbrev submitted_axis : DriftMonitorCoordinator
  submitted_axis = record taken_axis { job_queue = drill_job anchor mutated ∷ [] }

  -- The event of the drill.
  abbrev pub drill_event : RevocationEvent
  drill_event = drifted_event json id i.now i.later (drill_job anchor mutated) taken_axis l m

  -- The monitor that the drill leaves.
  abbrev pub drilled_monitor : RuntimeMonitor
  drilled_monitor = (compile_and_swap i.later (append_event drill_event m)).1

  abbrev pub drilled_axis : DriftMonitorCoordinator
  drilled_axis = worked json i submitted_axis

  pub drill-worked :
      (evaluate_drift anchor mutated default_dimensions d.threshold).axis_preserved ≡ false
      → l.is_open ≡ true
      → i.device ≡ healthy
      → i.random ≡ some id
      → IsStored json drill_event
      → (drilled_axis.stats.quarantined ≡ 1) × (drilled_axis.monitor ≡ some drilled_monitor)
  unfolding new_drift_monitor_coordinator
  drill-worked drifted opened device random stored =
      let run : Device → Option Bytes → DriftMonitorCoordinator =
        λ v r. (process_job json v r i.now i.later (drill_job anchor mutated) taken_axis).1 in
      subst (λ c. (c.stats.quarantined ≡ 1) × (c.monitor ≡ some drilled_monitor))
        (sym (ap (λ v. run v i.random) device ∙ ap (run healthy) random))
        (process_job-quarantines json id i.now i.later (drill_job anchor mutated) taken_axis l m
          drifted refl refl opened refl stored)

  deadline-met : (c : DriftMonitorCoordinator) → c.stats.quarantined ≡ 1 → deadline_text c ≡ pass
  unfolding deadline_text
  deadline-met c counts = simp (counts) refl

  -- With a similarity above the blind spot's, the drill passes and leaves the coordinator of the worker.
  pub drill-passes :
      d.at_most (or_zero (cosine_similarity anchor mutated (pos 0) (pos 127))) d.blindspot ≡ false
      → w.worker ≡ in_time i
      → drilled_axis.stats.quarantined ≡ 1
      → poison_drill json d w taken_axis anchor (some mutated) ≡ some (pass, drilled_axis)
  unfolding poison_drill after_submission submit_non_blocking new_drift_monitor_coordinator
      await_worker
  drill-passes high timely counts = rw high (
      ap (λ k. some (await_worker json k submitted_axis)) timely
      ∙ ap (λ t. some (t, drilled_axis)) (deadline-met drilled_axis counts))

  -- The monitor that it leaves quarantines the poisoned memory, where the monitor had no event before.
  pub drilled-quarantines :
      m.ledger ≡ [] → (lookup drilled_monitor poison_memory_id).decision ≡ quarantine
  unfolding new_drift_monitor_coordinator
  drilled-quarantines none_yet =
      first_drift-quarantines i.now i.later id (drill_job anchor mutated)
        (evaluate_drift anchor mutated default_dimensions d.threshold) m none_yet
