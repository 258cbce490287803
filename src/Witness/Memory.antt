-- ===== src/Witness/Memory.antt =====
-- Evaluation of a memory, histories of events and snapshots.
use mathlib.Core.List.Perm
use veraxis_memory_admissibi.Prelude.Bytes.{bytes_eq}
use veraxis_memory_admissibi.Tenant.{validate_tenant, validate_domain}
use veraxis_memory_admissibi.Prelude.{ℕ, zero, suc, ◌≡◌, ◌≢◌, ◌↔◌, refl, some, [], ◌∷◌, inl}
use veraxis_memory_admissibi.Prelude.Bits.{bit}
use veraxis_memory_admissibi.Prelude.Int.{pos}
use veraxis_memory_admissibi.Bitmask.{SharesFlag}
use veraxis_memory_admissibi.Evaluate.{use_memory, reason_use, evaluate_memory_hot_path}
use veraxis_memory_admissibi.Evaluate.Table.{evaluate-use_iff}
use veraxis_memory_admissibi.Quarantine.Event.{EventType, RevocationEvent}
use veraxis_memory_admissibi.Quarantine.Monitor.{
  append_event, swap_active_snapshot, compile_and_swap, lookup, new_runtime_monitor,
}
use veraxis_memory_admissibi.Quarantine.Swaps.Forgotten.{swapped_forgotten}
use veraxis_memory_admissibi.Quarantine.Snapshot.{
  RuntimeSnapshot, lookup_blocks, apply_events, no_blocks, compile_snapshot, compute_snapshot_hash,
}
use veraxis_memory_admissibi.Quarantine.Snapshot.History.{
  blocked_until_cleared, quarantine_lifts_revocation,
}
use veraxis_memory_admissibi.Quarantine.Snapshot.Standing.{
  lookup-standing, standing, verdict, clear,
}
use veraxis_memory_admissibi.Quarantine.Snapshot.Canonical.{compile-hash_canonical}
use veraxis_memory_admissibi.Platform.{Platform}
use veraxis_memory_admissibi.Witness.Toy.{toy}
use veraxis_memory_admissibi.Witness.Sample.{id_a, id_b, hash_of, mask, event}

instance here : Platform
here = toy

evaluate-use_iff_example :
    (evaluate_memory_hot_path (hash_of 6) (hash_of 6) (hash_of 7) (hash_of 7) 512 mask
      ≡ (use_memory, reason_use))
    ↔ ((hash_of 6 ≡ hash_of 6)
        × (hash_of 7 ≡ hash_of 7)
        × (bit 512 1 ≡ 0)
        × (bit 512 2 ≡ 0)
        × (bit 512 3 ≡ 0)
        × (¬ SharesFlag 512 mask.prohibited_safety)
        × (¬ SharesFlag 512 mask.prohibited_use_blocks)
        × SharesFlag 512 mask.allowed_use_classes)
evaluate-use_iff_example = evaluate-use_iff (hash_of 6) (hash_of 6) (hash_of 7) (hash_of 7) 512 mask

bit_zero : (k : ℕ) → bit 0 k ≡ 0
bit_zero zero = refl
bit_zero (suc k) = bit_zero k

permitted :
    (evaluate_memory_hot_path (hash_of 6) (hash_of 6) (hash_of 7) (hash_of 7) 512 mask).0
    ≡ use_memory
unfolding evaluate_memory_hot_path validate_tenant validate_domain bytes_eq
permitted = refl

lookup-standing_example :
    lookup_blocks (apply_events no_blocks (event id_a EventType.revoke_memory ∷ [])) id_a
    ≡ verdict (standing id_a clear (event id_a EventType.revoke_memory ∷ []))
lookup-standing_example = lookup-standing (event id_a EventType.revoke_memory ∷ []) id_a

blocked_until_cleared_example :
    (lookup_blocks
      (apply_events no_blocks
        (event id_a EventType.revoke_memory ∷ event id_b EventType.quarantine_memory ∷ []))
      id_a).decision
    ≢ use_memory
blocked_until_cleared_example =
    blocked_until_cleared [] (event id_b EventType.quarantine_memory ∷ [])
      (event id_a EventType.revoke_memory) tt (inl (λ e. cc), tt)

quarantine_lifts_revocation_example :
    (lookup_blocks
      (apply_events no_blocks (
        event id_a EventType.revoke_memory
        ∷ event id_b EventType.quarantine_memory
        ∷ event id_b EventType.clear_quarantine
        ∷ []))
      id_a).decision
    ≡ use_memory
quarantine_lifts_revocation_example =
    quarantine_lifts_revocation [] (event id_a EventType.revoke_memory)
      (event id_b EventType.quarantine_memory) (event id_b EventType.clear_quarantine) id_a tt refl
      refl refl refl tt refl

compile-hash_canonical_example :
    compute_snapshot_hash (compile_snapshot (event id_a EventType.revoke_memory ∷ []) 1 (pos 0))
    ≡ (compile_snapshot (event id_a EventType.revoke_memory ∷ []) 1 (pos 0)).snapshot_hash
compile-hash_canonical_example =
    compile-hash_canonical (event id_a EventType.revoke_memory ∷ []) 1 (pos 0)
      (compile_snapshot (event id_a EventType.revoke_memory ∷ []) 1 (pos 0)).blocks Perm.rfl
      Perm.rfl Perm.rfl

-- A snapshot that quarantines a memory.
abbrev held : RuntimeSnapshot
held = compile_snapshot (event id_b EventType.quarantine_memory ∷ []) 7 (pos 1)

abbrev other : RevocationEvent
other = record (event id_b EventType.revoke_memory) { memory_id = id_b }

swapped_forgotten_example :
    (lookup
      (compile_and_swap
        (pos 2)
        (append_event other (swap_active_snapshot (some held) (new_runtime_monitor (pos 0))))).1
      id_a).decision
    ≡ use_memory
unfolding new_runtime_monitor swap_active_snapshot
swapped_forgotten_example =
    swapped_forgotten held (new_runtime_monitor (pos 0)) other (pos 2) id_a tt (λ e. cc)
