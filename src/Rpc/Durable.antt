-- ===== src/Rpc/Durable.antt =====
-- What registering an event leaves in the ledger and in the monitor.
use veraxis_memory_admissibi.Prelude.{
  ◌≡◌, ◌==◌, refl, ap, true, Option, none, some, [], ◌∷◌, ◌++◌, length, ==_iff, Bool-cases, inl,
  inr,
}
use veraxis_memory_admissibi.Prelude.Bytes.{Bytes}
use veraxis_memory_admissibi.Prelude.Result.{Result, ok, err}
use veraxis_memory_admissibi.Prelude.Time.{Time}
use veraxis_memory_admissibi.Platform.{Platform}
use veraxis_memory_admissibi.Quarantine.Snapshot.{compile_snapshot}
use veraxis_memory_admissibi.Quarantine.Event.{RevocationEvent}
use veraxis_memory_admissibi.Quarantine.Monitor
use veraxis_memory_admissibi.Quarantine.Monitor.{
  RuntimeMonitor, next_version, compile_and_swap, swap_active_snapshot,
}
use veraxis_memory_admissibi.Quarantine.Ledger.{
  LedgerError, Codec, Device, FileLedger, healthy, replay_genesis,
}
use veraxis_memory_admissibi.Quarantine.Ledger.Frames.{frame}
use veraxis_memory_admissibi.Quarantine.Ledger.Exact.{Holds, replay_complete}
use veraxis_memory_admissibi.Quarantine.Ledger.RoundTrip.{
  IsStored, append_event-frame, Holds-append,
}
use veraxis_memory_admissibi.Rpc.{event_of, store_event, publish_event, register_present}
use veraxis_memory_admissibi.Rpc.Types.{RevocationRequest, RevocationResponse, RpcError}

module _ ⦃p : Platform⦄ (json : Codec) where
  publish-failed :
      (now : Time) (event : RevocationEvent) (m : RuntimeMonitor)
      (stored : Result LedgerError (Unit {0}) × Option FileLedger) (e : RpcError)
      → (publish_event now event m stored).0 ≡ err e
      → (publish_event now event m stored).1.monitor ≡ some m
  unfolding publish_event
  publish-failed now event m (err f, l) e h = refl
  publish-failed now event m (ok u, l) e h = absurd (cc)

  -- When registering an event on a server with a monitor fails, for whatever reason and on whatever
  -- device, the server's monitor is as it was, with its events and its active snapshot.
  pub register_failed :
      (d : Device) (random : Option Bytes) (now later : Time) (m : RuntimeMonitor)
      (l : Option FileLedger) (req : RevocationRequest) (e : RpcError)
      → (register_present json d random now later (record { monitor = some m; ledger = l }) req).0
        ≡ err e
      → (register_present json d random now later
          (record { monitor = some m; ledger = l })
          req).1.monitor
        ≡ some m
  unfolding register_present
  register_failed d none now later m l req e h = elim (Bool-cases (length req.memory_id == 16)) [
    | inl sized ↦ rw sized refl
    | inr malformed ↦ rw malformed refl
  ]
  register_failed d (some id) now later m l req e h =
      elim (Bool-cases (length req.memory_id == 16)) [
        | inl sized ↦
            let stored = store_event json d (event_of req id now) l in
            rw sized (publish-failed later (event_of req id now) m stored e (rw sized at h))
        | inr malformed ↦ rw malformed refl
      ]

  -- When the server's open ledger holds the events of its monitor, and the registered event is one
  -- that the codec stores, then on a device without faults registering succeeds, the monitor has the
  -- event after those that it had, a replay of the ledger gives exactly the monitor's events, and the
  -- active snapshot is compiled from them.
  pub register_durable :
      (now later : Time) (req : RevocationRequest) (id : Bytes) (m : RuntimeMonitor)
      (l : FileLedger)
      → length req.memory_id ≡ 16
      → l.is_open ≡ true
      → Holds json l.content m.ledger
      → IsStored json (event_of req id now)
      → (m' : RuntimeMonitor) × (l' : FileLedger) × (response : RevocationResponse)
        × (register_present json healthy
              (some id)
              now
              later
              (record { monitor = some m; ledger = some l })
              req
            ≡ (ok response, record { monitor = some m'; ledger = some l' }))
        × (m'.ledger ≡ m.ledger ++ event_of req id now ∷ [])
        × (replay_genesis json l' ≡ ok m'.ledger)
        × (m'.snapshot ≡ some (compile_snapshot m'.ledger (next_version m) later))
  unfolding register_present store_event publish_event compile_and_swap Monitor.append_event
      next_version swap_active_snapshot replay_genesis
  register_durable now later req id m l sized opened held stored =
      let event = event_of req id now in
      let written : FileLedger = record l { content = l.content ++ frame stored.payload } in
      let appended = append_event-frame json event l opened stored in
      let (snap, after) = compile_and_swap later (Monitor.append_event event m) in
      let response : RevocationResponse = record {
        event_id = id;
        updated_snapshot_version = snap.version;
        updated_snapshot_hash = snap.snapshot_hash;
      } in
      let size_test : (length req.memory_id == 16) ≡ true =
        (==_iff (length req.memory_id) 16).1 sized in
      (
        after,
        written,
        response,
        rw size_test (ap (λ q. publish_event later event m (q.0, some q.1)) appended),
        refl,
        cc (
          opened,
          replay_complete json (l.content ++ frame stored.payload) (m.ledger ++ event ∷ [])
              (Holds-append json l.content m.ledger event held stored),
        ),
        refl,
      )
