-- ===== src/Commands/Staging/Passing.antt =====
-- A staging verification in a world without faults.
use mathlib.Core.Path.{subst}
use veraxis_memory_admissibi.Prelude.{
  ◌≡◌, ◌≢◌, refl, sym, ap, ◌∙◌, true, false, Option, some, [], ◌∷◌, length,
}
use veraxis_memory_admissibi.Prelude.Bytes.{Bytes, GoString, text, zeros}
use veraxis_memory_admissibi.Prelude.Int.{pos}
use veraxis_memory_admissibi.Prelude.Result.{Result, ok, err}
use veraxis_memory_admissibi.Platform.{Platform}
use veraxis_memory_admissibi.Evaluate.{use_memory}
use veraxis_memory_admissibi.Quarantine.Event.{RevocationEvent}
use veraxis_memory_admissibi.Quarantine.Ledger.{Codec, FileLedger, healthy}
use veraxis_memory_admissibi.Quarantine.Ledger.Frames.{frame}
use veraxis_memory_admissibi.Quarantine.Ledger.RoundTrip.{IsStored}
use veraxis_memory_admissibi.Quarantine.Monitor.{RuntimeMonitor, lookup}
use veraxis_memory_admissibi.Orchestrator.Types.{HandoffCoordinator, HandoffError, HandoffResult}
use veraxis_memory_admissibi.Axis.Types.{Floats, default_dimensions}
use veraxis_memory_admissibi.Axis.{StructuralVector, cosine_similarity, evaluate_drift}
use veraxis_memory_admissibi.Axis.Worker.{
  DriftMonitorCoordinator, drift_event, new_drift_monitor_coordinator,
}
use veraxis_memory_admissibi.Axis.Worker.Loop.{Inputs}
use veraxis_memory_admissibi.Commands.Staging.{
  StagingVerificationReport, ControlledProvider, pass, passes, staging_base_vector_for_target,
  staging_mutate_subspace,
}
use veraxis_memory_admissibi.Commands.Staging.Fixture.{
  pre_seed_event, clean_memory_id, clean_messages, verify_handoff, new_provider,
}
use veraxis_memory_admissibi.Commands.Staging.World.{drill_job, DrillFloats, in_time, World}
use veraxis_memory_admissibi.Commands.Staging.Checks.{
  or_zero, record_windows, handoff_report, poison_drill,
}
use veraxis_memory_admissibi.Commands.Staging.Run.{
  StagingEnd, finished, after_drill, after_key, handoffs_report, verify_run, verify_seen,
  drill_axis, staging_main,
}
use veraxis_memory_admissibi.Commands.Staging.Turns.{
  IsOpen, slot-returned, windows_of-sanitized, staging_handoff-completes,
}
use veraxis_memory_admissibi.Commands.Staging.Seeded.{
  seed_snapshot, seeded_monitor, seeded_monitor_lem, seeded_report, staging_seeded,
}
use veraxis_memory_admissibi.Commands.Staging.Overflow.{overflow-passes}
use veraxis_memory_admissibi.Commands.Staging.Drilled.{
  drilled_monitor, drilled_axis, drill-worked, drill-passes, drilled-quarantines,
}
use veraxis_memory_admissibi.Commands.Staging.Sanitised.{clean-used, clean_window}
use veraxis_memory_admissibi.Commands.Staging.Poisoned.{after_drill-accepted}

module _ ⦃p : Platform⦄ ⦃f : Floats⦄ (w : World) (m : RuntimeMonitor) (key : Bytes)
    (sized : length key ≡ 64) (live : IsOpen w.handoff_looks) where
  -- The first handoff passes, and takes nothing else from the report.
  first_handoff-passes :
      (r : StagingVerificationReport) → (handoffs_report w m key r).handoff_result ≡ pass
  unfolding handoff_report text
  first_handoff-passes r =
      ap (λ res. (handoff_report w res r).handoff_result)
        (staging_handoff-completes (text "key_staging_01") (some m) key sized w.handoff_looks live
          w.handoff_at verify_handoff (λ e. cc) (λ e. cc) (λ e. cc))

  first_handoff-seen :
      (lookup m clean_memory_id).decision ≡ use_memory
      → verify_seen w m key ≡ record_windows (clean_messages ∷ []) new_provider
  first_handoff-seen used =
      ap (λ ws. record_windows ws new_provider)
        (windows_of-sanitized (text "key_staging_01") passes (some m) key sized w.handoff_looks live
            verify_handoff
          ∙ ap (λ x. x ∷ []) (clean_window m used))

module _ ⦃p : Platform⦄ ⦃f : Floats⦄ (w : World) where
  handoff_report-keeps :
      (res : Result HandoffError HandoffResult) (r : StagingVerificationReport)
      → ((handoff_report w res r).wal_replay_result ≡ r.wal_replay_result)
        × ((handoff_report w res r).readiness_result ≡ r.readiness_result)
        × ((handoff_report w res r).raw_context_bypass_detected ≡ r.raw_context_bypass_detected)
  unfolding handoff_report
  handoff_report-keeps (ok h) r = (refl, refl, refl)
  handoff_report-keeps (err e) r = (refl, refl, refl)

module _ ⦃p : Platform⦄ ⦃f : Floats⦄ where
  -- The anchor of the drill, with the temporality as its target.
  abbrev pub anchor : DrillFloats → StructuralVector
  anchor d = staging_base_vector_for_target d.vectors (pos 0) (pos 23)

  -- The event of a drill with this mutated vector.
  abbrev pub accepted_event : DrillFloats → StructuralVector → Inputs → Bytes → RevocationEvent
  accepted_event d mutated i id =
      drift_event i.now id (drill_job (anchor d) mutated)
        (evaluate_drift (anchor d) mutated default_dimensions d.threshold)

  -- A run that ends with exit code 0 and an accepted report.
  abbrev pub Accepts : StagingEnd → Type 0
  Accepts end =
      (report : StagingVerificationReport) × (provider : ControlledProvider) × (monitor : Option
        RuntimeMonitor)
      × (end ≡ finished report 0 provider monitor)
      × (report.final_status ≡ text "STAGING_ACCEPTED")

module _ ⦃p : Platform⦄ ⦃f : Floats⦄ (json : Codec) (d : DrillFloats) (w : World) (key : Bytes)
    (mutated : StructuralVector) (i : Inputs) (id : Bytes) where
  after_key-Accepts :
      (l : FileLedger)
      → l.is_open ≡ true
      → length key ≡ 64
      → IsOpen w.handoff_looks
      → IsOpen w.blocked_looks
      → IsOpen w.overflow_looks
      → IsOpen w.drill_looks
      → w.blocked_waits ≡ true
      → staging_mutate_subspace d.vectors (anchor d) (pos 0) (pos 23) d.factor ≡ some mutated
      → d.at_most (or_zero (cosine_similarity (anchor d) mutated (pos 0) (pos 127))) d.blindspot
        ≡ false
      → (evaluate_drift (anchor d) mutated default_dimensions d.threshold).axis_preserved ≡ false
      → w.worker ≡ in_time i
      → i.device ≡ healthy
      → i.random ≡ some id
      → IsStored json (accepted_event d mutated i id)
      → w.report_written ≡ true
      → Accepts (after_key json d w l (seeded_monitor w) (seeded_report w) (ok key))
  unfolding after_key new_drift_monitor_coordinator
  after_key-Accepts l opened sized live₁ live₂ live₃ live₄ waits made high drifted timely device
        random stored written =
      let m = seeded_monitor w in
      let (counts, monitored) =
        drill-worked json d w l m (anchor d) mutated i id drifted opened device random stored in
      let passed = drill-passes json d w l m (anchor d) mutated i id high timely counts in
      let (wal, ready, clean) = handoff_report-keeps w (verify_run w m key).0 (seeded_report w) in
      let after = drilled_monitor json d w l m (anchor d) mutated i id in
      let c = drilled_axis json d w l m (anchor d) mutated i id in
      let r = handoffs_report w m key (seeded_report w) in
      let accepted =
        after_drill-accepted w key sized live₄ m after c (verify_seen w m key) r monitored
          (drilled-quarantines json d w l m (anchor d) mutated i id (seeded_monitor_lem w))
          (first_handoff-seen w m key sized live₁ (clean-used w)) written wal ready
          (first_handoff-passes w m key sized live₁ (seeded_report w))
          (overflow-passes w m key sized live₂ live₃ waits) clean in
      let returned =
        slot-returned (text "key_staging_01") passes (some m) key sized w.handoff_looks live₁
          w.handoff_at verify_handoff in
      let run : Option HandoffCoordinator
          → Option (GoString × DriftMonitorCoordinator)
          → StagingEnd =
        λ o t. after_drill w o (verify_seen w m key) r t in
      let drilled = ap (poison_drill json d w (drill_axis d l m) (anchor d)) made ∙ passed in
      let ran =
        ap (run (verify_run w m key).1) drilled
        ∙ (ap (λ o. run o (some (pass, c))) returned ∙ accepted) in
      (_, _, _, ran, refl)

  -- A staging verification on an empty ledger file is accepted and exits with 0, when the codec stores
  -- its two events, the seeded snapshot's hash is not zero, the key has 64 bytes, the contexts stay
  -- open, the first goroutine's handoff waits with the slot, the drill's vectors are alike on the whole
  -- and drift, a worker takes the job in time, no device fails, and the report can be written.
  pub staging_main-Accepts :
      IsStored json pre_seed_event
      → w.opened ≡ ok []
      → w.seed_device ≡ healthy
      → seed_snapshot.snapshot_hash ≢ zeros 32
      → w.generated_key ≡ ok key
      → length key ≡ 64
      → IsOpen w.handoff_looks
      → IsOpen w.blocked_looks
      → IsOpen w.overflow_looks
      → IsOpen w.drill_looks
      → w.blocked_waits ≡ true
      → staging_mutate_subspace d.vectors (anchor d) (pos 0) (pos 23) d.factor ≡ some mutated
      → d.at_most (or_zero (cosine_similarity (anchor d) mutated (pos 0) (pos 127))) d.blindspot
        ≡ false
      → (evaluate_drift (anchor d) mutated default_dimensions d.threshold).axis_preserved ≡ false
      → w.worker ≡ in_time i
      → i.device ≡ healthy
      → i.random ≡ some id
      → IsStored json (accepted_event d mutated i id)
      → w.report_written ≡ true
      → Accepts (staging_main json d w)
  staging_main-Accepts seeded opened device hashed keyed sized live₁ live₂ live₃ live₄ waits made
        high drifted timely healthy_drill random stored written =
      let l : FileLedger = record { is_open = true; content = frame seeded.payload } in
      let come =
        staging_seeded w json d seeded opened device hashed
        ∙ ap (after_key json d w l (seeded_monitor w) (seeded_report w)) keyed in
      subst Accepts (sym come) (
        after_key-Accepts l refl sized live₁ live₂ live₃ live₄ waits made high drifted timely
          healthy_drill random stored written)
