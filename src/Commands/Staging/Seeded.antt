-- ===== src/Commands/Staging/Seeded.antt =====
-- The run of the staging verification up to its key, on an empty ledger file and without a device
-- error.
use veraxis_memory_admissibi.Prelude.{
  ◌≡◌, ◌≢◌, refl, sym, ap, ◌∙◌, true, some, [], ◌∷◌, Bool-cases, inl, inr,
}
use veraxis_memory_admissibi.Prelude.Bytes.{bytes_eq, bytes_eq_iff, zeros}
use veraxis_memory_admissibi.Prelude.Result.{ok}
use veraxis_memory_admissibi.Prelude.Time.{Time, time_sub}
use veraxis_memory_admissibi.Platform.{Platform}
use veraxis_memory_admissibi.Quarantine.Ledger
use veraxis_memory_admissibi.Quarantine.Ledger.{Codec, FileLedger, healthy, replay_genesis}
use veraxis_memory_admissibi.Quarantine.Ledger.Frames.{frame}
use veraxis_memory_admissibi.Quarantine.Ledger.RoundTrip.{
  IsStored, append_event-frame, replay-append_each,
}
use veraxis_memory_admissibi.Quarantine.Ledger.Recovery.{new_file_ledger}
use veraxis_memory_admissibi.Quarantine.Monitor.{
  RuntimeMonitor, new_runtime_monitor, swap_active_snapshot,
}
use veraxis_memory_admissibi.Quarantine.Snapshot.{RuntimeSnapshot, compile_snapshot}
use veraxis_memory_admissibi.Ops.{evaluate_readiness, is_ready}
use veraxis_memory_admissibi.Axis.Types.{Floats}
use veraxis_memory_admissibi.Prelude.Bytes.{text}
use veraxis_memory_admissibi.Commands.Staging.{StagingVerificationReport, pass, hex_string}
use veraxis_memory_admissibi.Commands.Staging.Fixture.{
  pre_seed_event, at_second, staging_telemetry, staging_health,
}
use veraxis_memory_admissibi.Commands.Staging.World.{DrillFloats, World}
use veraxis_memory_admissibi.Commands.Staging.Checks.{wal_text, readiness_text}
use veraxis_memory_admissibi.Commands.Staging.Run.{
  initial_report, after_key, after_replay, after_seed, after_open, staging_main,
}

module _ ⦃p : Platform⦄ where
  -- The snapshot of the seeded event.
  abbrev pub seed_snapshot : RuntimeSnapshot
  seed_snapshot = compile_snapshot (pre_seed_event ∷ []) 200 (at_second 1700000001)

  seed-ready :
      (clock : Time)
      → seed_snapshot.snapshot_hash ≢ zeros 32
      → evaluate_readiness clock (staging_telemetry seed_snapshot) (staging_health seed_snapshot)
        ≡ is_ready (text "MAM_READY")
  unfolding evaluate_readiness compile_snapshot time_sub
  seed-ready clock hashed = elim (Bool-cases (bytes_eq seed_snapshot.snapshot_hash (zeros 32))) [
    | inl unset ↦ absurd (hashed ((bytes_eq_iff _ _).0 unset))
    | inr set ↦ rw set refl
  ]

  module _ ⦃f : Floats⦄ (w : World) where
    abbrev pub seeded_monitor : RuntimeMonitor
    seeded_monitor = swap_active_snapshot (some seed_snapshot) (new_runtime_monitor w.monitor_at)

    pub seeded_monitor_lem : seeded_monitor.ledger ≡ []
    unfolding swap_active_snapshot new_runtime_monitor
    seeded_monitor_lem = refl

    abbrev pub seeded_report : StagingVerificationReport
    seeded_report = record (initial_report w) {
      wal_replay_result = pass;
      runtime_snapshot_hash = hex_string seed_snapshot.snapshot_hash;
      runtime_snapshot_version = seed_snapshot.version;
      readiness_result = pass;
    }

    module _ (json : Codec) (d : DrillFloats) where
      replayed-seed :
          (l : FileLedger)
          → seed_snapshot.snapshot_hash ≢ zeros 32
          → after_replay json d w l (ok (pre_seed_event ∷ []))
            ≡ after_key json d w l seeded_monitor seeded_report w.generated_key
      unfolding after_replay wal_text
      replayed-seed l hashed =
          ap
            (λ res.
              after_key json d w l seeded_monitor
                (record seeded_report { readiness_result = readiness_text res }) w.generated_key)
            (seed-ready w.readiness_at hashed)

      -- With an empty file, no device error and a seeded event that the codec stores, the run comes
      -- to its key with the event in the file and with two results that are passes.
      pub staging_seeded :
          (stored : IsStored json pre_seed_event)
          → w.opened ≡ ok []
          → w.seed_device ≡ healthy
          → seed_snapshot.snapshot_hash ≢ zeros 32
          → staging_main json d w
            ≡ after_key json d w
                (record { is_open = true; content = frame stored.payload })
                seeded_monitor
                seeded_report
                w.generated_key
      unfolding staging_main after_open new_file_ledger after_seed
      staging_seeded stored opened device hashed =
          let empty : FileLedger = record { is_open = true; content = [] } in
          let l : FileLedger = record { is_open = true; content = frame stored.payload } in
          let appended = append_event-frame json pre_seed_event empty refl stored in
          let replayed : replay_genesis json l ≡ ok (pre_seed_event ∷ []) =
            sym (ap (λ q. replay_genesis json q.1) appended)
            ∙ replay-append_each json (pre_seed_event ∷ []) [] empty refl (stored, tt) refl in
          ap (λ o. after_open json d w (new_file_ledger o)) opened
          ∙ (ap (λ v. after_seed json d w (Ledger.append_event json v pre_seed_event empty)) device
              ∙ (ap (after_seed json d w) appended
                  ∙ (ap (after_replay json d w l) replayed ∙ replayed-seed l hashed)))
