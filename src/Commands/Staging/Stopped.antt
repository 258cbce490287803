-- ===== src/Commands/Staging/Stopped.antt =====
-- What an accepted staging verification has seen.
use mathlib.Core.Path.{subst}
use veraxis_memory_admissibi.Prelude.{
  ℕ, ◌≡◌, ◌≢◌, refl, sym, ap, true, false, ==_iff, Option, none, some, [], ◌∷◌, Bool-cases, inl,
  inr,
}
use veraxis_memory_admissibi.Prelude.Bytes.{Bytes, GoString, text, bytes_eq}
use veraxis_memory_admissibi.Prelude.Int.{pos}
use veraxis_memory_admissibi.Prelude.Result.{Result, ok, err}
use veraxis_memory_admissibi.Platform.{Platform}
use veraxis_memory_admissibi.Evaluate.{use_memory}
use veraxis_memory_admissibi.Quarantine.Ledger.{Codec, FileLedger, LedgerError}
use veraxis_memory_admissibi.Quarantine.Ledger.Recovery.{RecoveryError}
use veraxis_memory_admissibi.Quarantine.Monitor.{RuntimeMonitor, lookup}
use veraxis_memory_admissibi.Axis.Types.{Floats}
use veraxis_memory_admissibi.Axis.{StructuralVector, cosine_similarity}
use veraxis_memory_admissibi.Axis.Worker.{
  DriftMonitorCoordinator, new_drift_monitor_coordinator, submit_non_blocking, take_job,
}
use veraxis_memory_admissibi.Axis.Worker.Loop.{Inputs}
use veraxis_memory_admissibi.Axis.Worker.Counts.{process_job-counts}
use veraxis_memory_admissibi.Commands.Staging.{
  StagingVerificationReport, ControlledProvider, raw_bypass_detected, pass,
}
use veraxis_memory_admissibi.Commands.Staging.Fixture.{poison_memory_id, raw_poison}
use veraxis_memory_admissibi.Commands.Staging.World.{
  DrillFloats, Worker, in_time, late, never, World, drill_job,
}
use veraxis_memory_admissibi.Commands.Staging.Checks.{
  or_zero, work_on, worked, deadline_text, await_worker, after_submission, poison_drill,
}
use veraxis_memory_admissibi.Commands.Staging.Run.{
  drill_axis, finished, write_report_and_exit, handoffs_report, after_key, after_replay, after_seed,
  after_open, staging_main,
}
use veraxis_memory_admissibi.Commands.Staging.Gates.{after_drill-finished}

-- The poisoned memory is blocked, by whatever the monitor's snapshot says.
abbrev pub PoisonBlocked : Option RuntimeMonitor → Type 0
PoisonBlocked o =
    (m : RuntimeMonitor) × (o ≡ some m) × ((lookup m poison_memory_id).decision ≢ use_memory)

module _ ⦃p : Platform⦄ ⦃f : Floats⦄ (json : Codec) where
  deadline-pass : (c : DriftMonitorCoordinator) → deadline_text c ≡ pass → c.stats.quarantined ≢ 0
  unfolding deadline_text text
  deadline-pass c h none_yet = absurd (cc (rw ((==_iff c.stats.quarantined 0).1 none_yet) at h))

  -- The drift coordinator with one drill job in its queue.
  module _ (c c' : DriftMonitorCoordinator) (m : RuntimeMonitor) (anchor mutated : StructuralVector)
      (queued : c.job_queue ≡ drill_job anchor mutated ∷ []) (watched : c.monitor ≡ some m)
      (none_yet : c.stats.quarantined ≡ 0) where
    worked-blocks :
        (i : Inputs)
        → (worked json i c).stats.quarantined ≢ 0
        → PoisonBlocked (worked json i c).monitor
    worked-blocks i =
        let rest : DriftMonitorCoordinator = record c { job_queue = [] } in
        let ran = ap (λ q. work_on json i c (take_job q c)) queued in
        subst (λ r. r.stats.quarantined ≢ 0 → PoisonBlocked r.monitor) (sym ran)
          (process_job-counts json i.device i.random i.now i.later (drill_job anchor mutated) rest m
            watched none_yet)

    await-pass :
        (worker : Worker) → await_worker json worker c ≡ (pass, c') → PoisonBlocked c'.monitor
    unfolding await_worker
    await-pass (in_time i) h =
        subst (λ r. PoisonBlocked r.monitor) (ap (λ q. q.1) h)
          (worked-blocks i (deadline-pass (worked json i c) (ap (λ q. q.0) h)))
    await-pass (late i) h = absurd (deadline-pass c (ap (λ q. q.0) h) none_yet)
    await-pass never h = absurd (deadline-pass c (ap (λ q. q.0) h) none_yet)

  some-inj :
      {x y : GoString × DriftMonitorCoordinator}
      → ◌≡◌ {A = Option (GoString × DriftMonitorCoordinator)} (some x) (some y)
      → x ≡ y
  some-inj e = cc

  module _ (d : DrillFloats) (w : World) where
    submission-pass :
        (l : FileLedger) (m : RuntimeMonitor) (anchor mutated : StructuralVector)
        (c : DriftMonitorCoordinator)
        → after_submission json w
            (submit_non_blocking (drill_job anchor mutated) (drill_axis d l m))
          ≡ some (pass, c)
        → PoisonBlocked c.monitor
    unfolding after_submission submit_non_blocking new_drift_monitor_coordinator
    submission-pass l m anchor mutated c h =
        let axis : DriftMonitorCoordinator = record (drill_axis d l m) {
          job_queue = drill_job anchor mutated ∷ [];
        } in
        await-pass axis c m anchor mutated refl refl refl w.worker (some-inj h)

    drill-pass :
        (l : FileLedger) (m : RuntimeMonitor) (anchor : StructuralVector)
        (made : Option StructuralVector) (c : DriftMonitorCoordinator)
        → poison_drill json d w (drill_axis d l m) anchor made ≡ some (pass, c)
        → PoisonBlocked c.monitor
    unfolding poison_drill text
    drill-pass l m anchor none c h = absurd (cc)
    drill-pass l m anchor (some mutated) c h =
        elim (Bool-cases
          (d.at_most (or_zero (cosine_similarity anchor mutated (pos 0) (pos 127))) d.blindspot)) [
            | inl low ↦ absurd (cc (rw low at h))
            | inr high ↦ submission-pass l m anchor mutated c (rw high at h)
          ]

    -- The state of a run that finished with exit code 0.
    abbrev Stops : ControlledProvider → Option RuntimeMonitor → Type 0
    Stops provider monitor =
        (w.report_written ≡ true)
        × PoisonBlocked monitor
        × (raw_bypass_detected provider raw_poison ≡ false)

    exit-unfinished :
        (r report : StagingVerificationReport) (n : ℕ) (provider : ControlledProvider)
        (monitor : Option RuntimeMonitor)
        → write_report_and_exit r ≢ finished report n provider monitor
    unfolding write_report_and_exit
    exit-unfinished r report n provider monitor e = elim (Bool-cases (bytes_eq r.final_status [])) [
      | inl unset ↦ cc (rw unset at e)
      | inr set ↦ cc (rw set at e)
    ]

    module _ (report : StagingVerificationReport) (provider : ControlledProvider)
        (monitor : Option RuntimeMonitor) where
      after_key-Stops :
          (l : FileLedger) (m : RuntimeMonitor) (r : StagingVerificationReport)
          (key : Result GoString Bytes)
          → after_key json d w l m r key ≡ finished report 0 provider monitor
          → Stops provider monitor
      unfolding after_key
      after_key-Stops l m r (err x) e = absurd (exit-unfinished _ report 0 provider monitor e)
      after_key-Stops l m r (ok key) e =
          let (c, drilled, same, clean, written) =
            after_drill-finished w _ _ provider (handoffs_report w m key r) report _ monitor e in
          (written, subst PoisonBlocked same (drill-pass l m _ _ c drilled), clean)

      after_seed-Stops :
          (seeded : Result LedgerError (Unit {0}) × FileLedger)
          → after_seed json d w seeded ≡ finished report 0 provider monitor
          → Stops provider monitor
      unfolding after_seed after_replay
      after_seed-Stops (err x, l) e = absurd (exit-unfinished _ report 0 provider monitor e)
      after_seed-Stops (ok u, l) e = after_key-Stops l _ _ w.generated_key e

      after_open-Stops :
          (opened : Result RecoveryError FileLedger)
          → after_open json d w opened ≡ finished report 0 provider monitor
          → Stops provider monitor
      unfolding after_open
      after_open-Stops (err x) e = absurd (exit-unfinished _ report 0 provider monitor e)
      after_open-Stops (ok l) e = after_seed-Stops _ e

    -- When the staging verification finishes with exit code 0, whatever the world did, its report could
    -- be written, the monitor blocks the poisoned memory, and no window that the provider recorded has
    -- the raw text in it.
    pub staging-stops_poison :
        (report : StagingVerificationReport) (provider : ControlledProvider)
        (monitor : Option RuntimeMonitor)
        → staging_main json d w ≡ finished report 0 provider monitor
        → (w.report_written ≡ true)
          × PoisonBlocked monitor
          × (raw_bypass_detected provider raw_poison ≡ false)
    unfolding staging_main
    staging-stops_poison report provider monitor e = after_open-Stops report provider monitor _ e
