-- ===== src/Rpc/Deleted.antt =====
-- Decisions on candidates under the snapshots that registered events leave.
use veraxis_memory_admissibi.Prelude.{ℕ, ◌≡◌, refl, List, ◌∷◌, ◌++◌}
use veraxis_memory_admissibi.Prelude.Time.{Time}
use veraxis_memory_admissibi.Platform.{Platform}
use veraxis_memory_admissibi.Evaluate.{delete_requested, decision_code}
use veraxis_memory_admissibi.Quarantine.Event.{RevocationEvent, EventType}
use veraxis_memory_admissibi.Quarantine.Snapshot.{compile_snapshot, lookup_with_snapshot}
use veraxis_memory_admissibi.Quarantine.Snapshot.History.{deletion_permanent}
use veraxis_memory_admissibi.Rpc.{decide_candidate}
use veraxis_memory_admissibi.Rpc.Types.{RuntimeContext, MemoryCandidate}

module _ ⦃p : Platform⦄ where
  -- Under a snapshot that is compiled from any history with a deletion of a memory in it, the
  -- decision on a candidate for that memory is its deletion, whatever its flags and the request's
  -- context are.
  pub decide_candidate_deleted :
      (before after : List RevocationEvent) (e : RevocationEvent) (version : ℕ) (now : Time)
      (c : RuntimeContext) (m : MemoryCandidate)
      → e.event_type ≡ EventType.delete_requested
      → m.memory_id ≡ e.memory_id
      → (decide_candidate (compile_snapshot (before ++ e ∷ after) version now) c m).0
        ≡ delete_requested
  unfolding decide_candidate lookup_with_snapshot compile_snapshot decision_code
  decide_candidate_deleted before after e version now c m t same =
      rw (same, deletion_permanent before after e t) refl
