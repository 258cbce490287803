-- ===== src/Quarantine/Swaps.antt =====
-- `CompileAndSwap` (pkg/quarantine/quarantine.go) takes no lock over its parts: calls of it, and
-- appends to the ledger, interleave in any order at the copy of the events, the load of the active
-- snapshot's version and the store of the new snapshot.
pub mod Stale
pub mod Prefix
pub mod Forgotten
use mathlib.Core.Path.{subst}
use veraxis_memory_admissibi.Prelude.{
  ℕ, ◌≡◌, refl, sym, ap, ◌∙◌, Option, none, some, List, [], ◌∷◌, ◌++◌, All,
}
use mathlib.Core.List.{append_assoc, append-nil}
use veraxis_memory_admissibi.Prelude.Time.{Time}
use veraxis_memory_admissibi.Platform.{Platform}
use veraxis_memory_admissibi.Quarantine.Event.{RevocationEvent}
use veraxis_memory_admissibi.Quarantine.Snapshot.{
  RuntimeSnapshot, compile_snapshot, new_empty_snapshot,
}
use veraxis_memory_admissibi.Quarantine.Monitor.{
  RuntimeMonitor, append_event, swap_active_snapshot, next_version, new_runtime_monitor,
}

-- A call that has copied the events, and perhaps loaded the version.
pub data Call : Type 0 where
  copied : List RevocationEvent → Call
  loaded : List RevocationEvent → ℕ → Call

abbrev pub events_of_call : Call → List RevocationEvent
events_of_call (copied es) = es
events_of_call (loaded es version) = es

-- The monitor and the calls of `CompileAndSwap` that have begun and not ended.
pub record Swaps : Type 0 where
  pub monitor : RuntimeMonitor
  pub calls : List Call

module _ ⦃p : Platform⦄ where
  -- `AppendEvent`, and the three parts of `CompileAndSwap`.
  pub data Step : Swaps → Swaps → Type 0 where
    appends :
        (m : RuntimeMonitor) (calls : List Call) (e : RevocationEvent)
        → Step
            (record { monitor = m; calls = calls })
            (record { monitor = append_event e m; calls = calls })
    copies :
        (m : RuntimeMonitor) (calls : List Call)
        → Step
            (record { monitor = m; calls = calls })
            (record { monitor = m; calls = copied m.ledger ∷ calls })
    loads :
        (m : RuntimeMonitor) (before : List Call) (es : List RevocationEvent) (after : List Call)
        → Step
            (record { monitor = m; calls = before ++ copied es ∷ after })
            (record { monitor = m; calls = before ++ loaded es (next_version m) ∷ after })
    stores :
        (m : RuntimeMonitor) (before : List Call) (es : List RevocationEvent) (version : ℕ)
        (after : List Call) (now : Time)
        → Step
            (record { monitor = m; calls = before ++ loaded es version ∷ after })
            (record {
              monitor = swap_active_snapshot (some (compile_snapshot es version now)) m;
              calls = before ++ after;
            })

  pub data Reach (s : Swaps) : Swaps → Type 0 where
    start : Reach s s
    later : {t u : Swaps} → Reach s t → Step t u → Reach s u
