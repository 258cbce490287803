-- ===== src/Quarantine/Swaps/Forgotten.antt =====
-- A snapshot that is swapped in without its events (`SwapActiveSnapshot` and `CompileAndSwap` of
-- pkg/quarantine/quarantine.go).
use veraxis_memory_admissibi.Prelude.{◌≡◌, ◌≢◌, some, [], ◌∷◌, ◌++◌, All, All-append}
use veraxis_memory_admissibi.Prelude.Bytes.{Bytes}
use veraxis_memory_admissibi.Prelude.Time.{Time}
use veraxis_memory_admissibi.Platform.{Platform}
use veraxis_memory_admissibi.Evaluate.{use_memory}
use veraxis_memory_admissibi.Quarantine.Event.{RevocationEvent}
use veraxis_memory_admissibi.Quarantine.Monitor.{
  RuntimeMonitor, append_event, swap_active_snapshot, compile_and_swap, lookup,
}
use veraxis_memory_admissibi.Quarantine.Snapshot.{RuntimeSnapshot, compile_snapshot}
use veraxis_memory_admissibi.Quarantine.Snapshot.History.{unnamed_used}

abbrev pub DoesNotName : Bytes → RevocationEvent → Type 0
DoesNotName id e = e.memory_id ≢ id

-- A snapshot that is swapped in does not outlive the next event that is published: afterwards a memory
-- that neither this event nor the monitor's own ones name is in use, whatever the snapshot said of it.
pub swapped_forgotten :
    ⦃p : Platform⦄
    → (snap : RuntimeSnapshot) (m : RuntimeMonitor) (e : RevocationEvent) (now : Time) (id : Bytes)
    → All (DoesNotName id) m.ledger
    → DoesNotName id e
    → (lookup
        (compile_and_swap now (append_event e (swap_active_snapshot (some snap) m))).1
        id).decision
      ≡ use_memory
unfolding compile_and_swap append_event swap_active_snapshot lookup compile_snapshot
swapped_forgotten snap m e now id unnamed other =
    unnamed_used (m.ledger ++ e ∷ []) id
      (All-append (DoesNotName id) m.ledger (e ∷ []) unnamed (other, tt))
