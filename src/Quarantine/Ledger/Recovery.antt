-- ===== src/Quarantine/Ledger/Recovery.antt =====
-- Opening a ledger file, and the monitor that `RecoverMonitorFromFile` rebuilds from it
-- (pkg/quarantine/persistence.go). What `os.OpenFile` does is an argument: an error, or the bytes of
-- the file.
use veraxis_memory_admissibi.Prelude.{
  ℕ, ◌≡◌, refl, sym, ap, ◌∙◌, true, some, List, [], ◌∷◌, ◌++◌, map,
}
use mathlib.Core.Path.{subst}
use mathlib.Core.List.{append_assoc, append-nil}
use veraxis_memory_admissibi.Prelude.Bytes.{Bytes, GoString}
use veraxis_memory_admissibi.Prelude.Result.{Result, ok, err, ◌>>=◌}
use veraxis_memory_admissibi.Prelude.Time.{Time}
use veraxis_memory_admissibi.Platform.{Platform}
use veraxis_memory_admissibi.Quarantine.Event.{RevocationEvent}
use veraxis_memory_admissibi.Quarantine.Snapshot.{
  RuntimeSnapshot, compile_snapshot, new_empty_snapshot, compute_snapshot_hash, no_blocks,
  apply_events, lookup_blocks,
}
use veraxis_memory_admissibi.Quarantine.Monitor.{
  RuntimeMonitor, append_event, swap_active_snapshot, lookup, active_snapshot_info, next_version,
  new_runtime_monitor, compile_and_swap,
}
use veraxis_memory_admissibi.Quarantine.Ledger.{LedgerError, Codec, FileLedger, replay_from}
use veraxis_memory_admissibi.Quarantine.Ledger.RoundTrip.{AreStored, append_each, append_each-Holds}
use veraxis_memory_admissibi.Quarantine.Ledger.Exact.{Holds, replay_complete}

pub data RecoveryError : Type 0 where
  open_failed : GoString → RecoveryError
  replay_failed : LedgerError → RecoveryError

-- `NewFileLedger`
unfoldable pub new_file_ledger : Result GoString Bytes → Result RecoveryError FileLedger
new_file_ledger (err e) = err (open_failed e)
new_file_ledger (ok content) = ok (record { is_open = true; content = content })

abbrev pub from_replay {ℓ} : {A : Type ℓ} → Result LedgerError A → Result RecoveryError A
from_replay (ok a) = ok a
from_replay (err e) = err (replay_failed e)

-- The loop that appends the replayed events to the monitor.
unfoldable pub append_events : List RevocationEvent → RuntimeMonitor → RuntimeMonitor
append_events [] m = m
append_events (e ∷ es) m = append_events es (append_event e m)

module _ ⦃p : Platform⦄ where
  unfoldable pub replay_file :
      Codec → Result GoString Bytes → Result RecoveryError (List RevocationEvent)
  replay_file json (err e) = err (open_failed e)
  replay_file json (ok content) = from_replay (replay_from json content)

  -- `RecoverMonitorFromFile`; `started` and `now` are its two readings of the clock.
  unfoldable pub recover_monitor_from_file :
      Codec
      → Result GoString Bytes
      → ℕ
      → Time
      → Time
      → Result RecoveryError (RuntimeMonitor × RuntimeSnapshot)
  unfolding replay_file append_events
  recover_monitor_from_file json file version started now = do
    events ← replay_file json file
    let snap = compile_snapshot events version now
    ok (swap_active_snapshot (some snap) (append_events events (new_runtime_monitor started)), snap)

  -- A monitor that was started and then took one event after the other, each published at once.
  abbrev pub publish_each : List (RevocationEvent × Time) → RuntimeMonitor → RuntimeMonitor
  publish_each [] m = m
  publish_each ((e, now) ∷ rest) m = publish_each rest (compile_and_swap now (append_event e m)).1

  abbrev pub events_of : List (RevocationEvent × Time) → List RevocationEvent
  events_of ps = map (λ q. q.0) ps

  -- The active snapshot is compiled from all the events that the monitor has.
  pub record UpToDate (m : RuntimeMonitor) (es : List RevocationEvent) : Type 0 where
    pub version : ℕ
    pub at : Time
    pub events : m.ledger ≡ es
    pub active : m.snapshot ≡ some (compile_snapshot es version at)

  pub new_runtime_monitor-UpToDate : (now : Time) → UpToDate (new_runtime_monitor now) []
  unfolding new_runtime_monitor new_empty_snapshot compile_snapshot
  new_runtime_monitor-UpToDate now = record { version = 0; at = now; events = refl; active = refl }

  pub publish_each-UpToDate :
      (ps : List (RevocationEvent × Time)) (m : RuntimeMonitor) (es : List RevocationEvent)
      → UpToDate m es
      → UpToDate (publish_each ps m) (es ++ events_of ps)
  unfolding compile_and_swap append_event
  publish_each-UpToDate [] m es i = subst (UpToDate m) (sym (append-nil es)) i
  publish_each-UpToDate ((e, now) ∷ ps) m es i =
      let next = (compile_and_swap now (append_event e m)).1 in
      let all = ap (λ fs. fs ++ e ∷ []) i.events in
      subst (UpToDate (publish_each ps next)) (append_assoc es (e ∷ []) (events_of ps)) (
        publish_each-UpToDate ps next (es ++ e ∷ []) (record {
          version = next_version (append_event e m);
          at = now;
          events = all;
          active = ap (λ fs. some (compile_snapshot fs (next_version (append_event e m)) now)) all;
        }))

  append_events-ledger :
      (es : List RevocationEvent) (m : RuntimeMonitor)
      → append_events es m ≡ record m { ledger = m.ledger ++ es }
  unfolding append_events append_event
  append_events-ledger [] m = ap (λ es. record m { ledger = es }) (sym (append-nil m.ledger))
  append_events-ledger (e ∷ es) m =
      append_events-ledger es (append_event e m)
      ∙ ap (λ fs. record m { ledger = fs }) (append_assoc m.ledger (e ∷ []) es)

  -- A monitor whose active snapshot is compiled from its events answers as the snapshot does.
  UpToDate-info :
      (m : RuntimeMonitor) (es : List RevocationEvent) (now : Time)
      → (i : UpToDate m es)
      → active_snapshot_info m ≡ ((compile_snapshot es i.version now).snapshot_hash, i.version)
  unfolding active_snapshot_info compile_snapshot compute_snapshot_hash
  UpToDate-info m es now i = rw (i.active) refl

  pub UpToDate-lookup :
      (m : RuntimeMonitor) (es : List RevocationEvent) (id : Bytes)
      → UpToDate m es
      → lookup m id ≡ lookup_blocks (apply_events no_blocks es) id
  unfolding lookup compile_snapshot
  UpToDate-lookup m es id i = rw (i.active) refl

  -- A recovery from a file that holds the events `es`.
  pub recover-held :
      (json : Codec) (content : Bytes) (es : List RevocationEvent) (version : ℕ)
      (started now : Time)
      → Holds json content es
      → recover_monitor_from_file json (ok content) version started now
        ≡ ok (
          record { snapshot = some (compile_snapshot es version now); ledger = es },
          compile_snapshot es version now,
        )
  unfolding recover_monitor_from_file replay_file new_runtime_monitor swap_active_snapshot
  recover-held json content es version started now held =
      rw
        (
          replay_complete json content es held,
          append_events-ledger es (new_runtime_monitor started),
        )
        refl

  -- When the events of a monitor, each published as it came, were appended to a new ledger without
  -- a device error, recovery from the ledger's file, under the monitor's version, gives a monitor with
  -- the same events, the same active version and snapshot hash, and the same answer to every lookup.
  pub recover-live :
      (json : Codec) (ps : List (RevocationEvent × Time)) (begun started now : Time)
      → AreStored json (events_of ps)
      → (m : RuntimeMonitor) × (snap : RuntimeSnapshot) × (recover_monitor_from_file json
            (ok (append_each json (events_of ps) (record { is_open = true; content = [] })).content)
            (active_snapshot_info (publish_each ps (new_runtime_monitor begun))).1
            started
            now
          ≡ ok (m, snap))
        × (m.ledger ≡ (publish_each ps (new_runtime_monitor begun)).ledger)
        × (active_snapshot_info m
            ≡ active_snapshot_info (publish_each ps (new_runtime_monitor begun)))
        × ((id : Bytes) → lookup m id ≡ lookup (publish_each ps (new_runtime_monitor begun)) id)
  recover-live json ps begun started now stored =
      let live = publish_each ps (new_runtime_monitor begun) in
      let es = events_of ps in
      let i =
        publish_each-UpToDate ps (new_runtime_monitor begun) []
          (new_runtime_monitor-UpToDate begun) in
      let held =
        append_each-Holds json es [] (record { is_open = true; content = [] }) refl stored refl in
      let v = (active_snapshot_info live).1 in
      let rebuilt : RuntimeMonitor = record {
        snapshot = some (compile_snapshot es v now);
        ledger = es;
      } in
      let same_version : v ≡ i.version = ap (λ q. q.1) (UpToDate-info live es now i) in
      let j : UpToDate rebuilt es = record {
        version = v;
        at = now;
        events = refl;
        active = refl;
      } in
      (
        rebuilt,
        compile_snapshot es v now,
        recover-held json _ es v started now held.1,
        sym i.events,
        UpToDate-info rebuilt es now j
            ∙ ap (λ n. ((compile_snapshot es n now).snapshot_hash, n)) same_version
            ∙ sym (UpToDate-info live es now i),
        λ id. UpToDate-lookup rebuilt es id j ∙ sym (UpToDate-lookup live es id i),
      )
