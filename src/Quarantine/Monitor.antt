-- ===== src/Quarantine/Monitor.antt =====
-- The runtime monitor: the active snapshot and the events in memory (pkg/quarantine/quarantine.go).
-- The pointer that `SwapActiveSnapshot` stores is never nil, so an unset pointer is `none`.
use veraxis_memory_admissibi.Prelude.{ℕ, ◌+◌, ◌%◌, ◌^◌, Option, none, some, List, [], ◌∷◌, ◌++◌}
use veraxis_memory_admissibi.Prelude.Bytes.{Bytes, zeros}
use veraxis_memory_admissibi.Prelude.Time.{Time}
use veraxis_memory_admissibi.Platform.{Platform}
use veraxis_memory_admissibi.Quarantine.Event.{RevocationEvent}
use veraxis_memory_admissibi.Quarantine.Snapshot.{
  RuntimeSnapshot, RuntimeDecision, lookup_with_snapshot, new_empty_snapshot, compile_snapshot,
}

pub record RuntimeMonitor : Type 0 where
  pub snapshot : Option RuntimeSnapshot
  pub ledger : List RevocationEvent

-- A nil snapshot is not stored.
unfoldable pub swap_active_snapshot : Option RuntimeSnapshot → RuntimeMonitor → RuntimeMonitor
swap_active_snapshot none m = m
swap_active_snapshot (some snap) m = record m { snapshot = some snap }

unfoldable pub append_event : RevocationEvent → RuntimeMonitor → RuntimeMonitor
append_event event m = record m { ledger = m.ledger ++ event ∷ [] }

unfoldable pub lookup : RuntimeMonitor → Bytes → RuntimeDecision
unfolding lookup_with_snapshot
lookup m id = lookup_with_snapshot m.snapshot id

unfoldable pub active_snapshot_info : RuntimeMonitor → Bytes × ℕ
active_snapshot_info m = elim m.snapshot [
  | none ↦ (zeros 32, 0)
  | some snap ↦ (snap.snapshot_hash, snap.version)
]

-- The version after the active one, a uint64; 1 where nothing is stored.
unfoldable pub next_version : RuntimeMonitor → ℕ
next_version m = elim m.snapshot [ none ↦ 1 | some snap ↦ (snap.version + 1) % 2 ^ 64 ]

module _ ⦃p : Platform⦄ where
  -- `now` is what `time.Now()` answers.
  unfoldable pub new_runtime_monitor : Time → RuntimeMonitor
  unfolding swap_active_snapshot
  new_runtime_monitor now =
      swap_active_snapshot (some (new_empty_snapshot 0 now))
        (record { snapshot = none; ledger = [] })

  unfoldable pub get_active_snapshot : RuntimeMonitor → Time → RuntimeSnapshot
  get_active_snapshot m now = elim m.snapshot [ none ↦ new_empty_snapshot 0 now | some snap ↦ snap ]

  unfoldable pub compile_and_swap : Time → RuntimeMonitor → RuntimeSnapshot × RuntimeMonitor
  unfolding swap_active_snapshot next_version
  compile_and_swap created_at m =
      let snap = compile_snapshot m.ledger (next_version m) created_at in
      (snap, swap_active_snapshot (some snap) m)
