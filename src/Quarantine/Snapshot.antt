-- ===== src/Quarantine/Snapshot.antt =====
-- `CompileSnapshot`, `ComputeSnapshotHash` and the lookups on a snapshot
-- (pkg/quarantine/quarantine.go).
pub mod Standing
pub mod History
pub mod Canonical
use veraxis_memory_admissibi.Prelude.{
  ℕ, Option, none, some, List, [], ◌∷◌, ◌++◌, Bool, length, ◌%◌, ◌^◌,
}
use veraxis_memory_admissibi.Prelude.Bytes.{Bytes, GoString, text, bytes_lt, big_endian, zeros}
use veraxis_memory_admissibi.Prelude.Dict
use veraxis_memory_admissibi.Prelude.Dict.{Dict}
use veraxis_memory_admissibi.Prelude.Int.{ℤ}
use veraxis_memory_admissibi.Prelude.Time.{Time, unix}
use veraxis_memory_admissibi.Platform.{Platform}
use veraxis_memory_admissibi.Evaluate.{
  Decision, use_memory, refuse, quarantine, delete_requested, reason_deletion_requested,
  reason_memory_revoked,
}
use veraxis_memory_admissibi.Quarantine.Event.{EventType, RevocationEvent, reason_code}

pub record QuarantineState : Type 0 where
  pub event_id : Bytes
  pub reason_code : GoString

pub record TombstoneState : Type 0 where
  pub event_id : Bytes

pub record RevocationState : Type 0 where
  pub event_id : Bytes

-- The three maps of a runtime snapshot.
pub record Blocks : Type 0 where
  pub quarantined : Dict QuarantineState
  pub tombstoned : Dict TombstoneState
  pub revoked : Dict RevocationState

pub record RuntimeSnapshot : Type 0 where
  pub version : ℕ
  pub snapshot_hash : Bytes
  pub created_at_unix : ℤ
  pub highest_event_id : Bytes
  pub event_count : ℕ
  pub blocks : Blocks
  pub open blocks use *

pub record RuntimeDecision : Type 0 where
  pub decision : Decision
  pub reason : GoString
  pub state_ref : Bytes

abbrev pub no_blocks : Blocks
no_blocks = record { quarantined = []; tombstoned = []; revoked = [] }

-- `snap.Quarantined[event.MemoryID] = ...` with the entry of the other map dropped.
unfoldable pub quarantine_entry : RevocationEvent → Blocks → Blocks
quarantine_entry e b = record b {
  revoked = Dict.remove b.revoked e.memory_id;
  quarantined =
      Dict.put b.quarantined e.memory_id
        (record { event_id = e.event_id; reason_code = reason_code e });
}

-- The switch of `CompileSnapshot`; a type that no case names changes nothing.
unfoldable pub apply_type : EventType → RevocationEvent → Blocks → Blocks
unfolding quarantine_entry
apply_type EventType.delete_requested e b = record {
  quarantined = Dict.remove b.quarantined e.memory_id;
  revoked = Dict.remove b.revoked e.memory_id;
  tombstoned = Dict.put b.tombstoned e.memory_id (record { event_id = e.event_id });
}
apply_type EventType.quarantine_memory e b = quarantine_entry e b
apply_type EventType.poisoning_suspected e b = quarantine_entry e b
apply_type EventType.prompt_injection_detected e b = quarantine_entry e b
apply_type EventType.cross_session_leak e b = quarantine_entry e b
apply_type EventType.cross_agent_leak e b = quarantine_entry e b
apply_type EventType.revoke_memory e b = record b {
  quarantined = Dict.remove b.quarantined e.memory_id;
  revoked = Dict.put b.revoked e.memory_id (record { event_id = e.event_id });
}
apply_type EventType.clear_quarantine e b = record b {
  quarantined = Dict.remove b.quarantined e.memory_id;
}
apply_type (EventType.unknown n) e b = b

unfoldable pub apply_event : Blocks → RevocationEvent → Blocks
unfolding apply_type
apply_event b e = apply_type e.event_type e b

-- The loop of `CompileSnapshot` over the events, from the maps that it has so far.
unfoldable pub apply_events : Blocks → List RevocationEvent → Blocks
apply_events b [] = b
apply_events b (e ∷ es) = apply_events (apply_event b e) es

unfoldable pub last_event_id : Bytes → List RevocationEvent → Bytes
last_event_id last [] = last
last_event_id last (e ∷ es) = last_event_id e.event_id es

-- `pairs[i].id < pairs[j].id`
abbrev pub entry_less {ℓ} : {V : Type ℓ} → Bytes × V → Bytes × V → Bool
entry_less p q = bytes_lt p.0 q.0

module _ ⦃p : Platform⦄ where
  -- What a loop over sorted pairs writes into the hash.
  unfoldable pub write_quarantines : List (Bytes × QuarantineState) → Bytes
  write_quarantines [] = []
  write_quarantines ((id, state) ∷ pairs) =
      text "Q" ++ (id ++ (state.event_id ++ (state.reason_code ++ write_quarantines pairs)))

  unfoldable pub write_tombstones : List (Bytes × TombstoneState) → Bytes
  write_tombstones [] = []
  write_tombstones ((id, state) ∷ pairs) =
      text "T" ++ (id ++ (state.event_id ++ write_tombstones pairs))

  unfoldable pub write_revocations : List (Bytes × RevocationState) → Bytes
  write_revocations [] = []
  write_revocations ((id, state) ∷ pairs) =
      text "R" ++ (id ++ (state.event_id ++ write_revocations pairs))

  unfoldable pub write_quarantine_set : Dict QuarantineState → Bytes
  write_quarantine_set set = write_quarantines (p.sort_slice _ entry_less set)

  unfoldable pub write_tombstone_set : Dict TombstoneState → Bytes
  write_tombstone_set set = write_tombstones (p.sort_slice _ entry_less set)

  unfoldable pub write_revocation_set : Dict RevocationState → Bytes
  write_revocation_set set = write_revocations (p.sort_slice _ entry_less set)

  unfoldable pub compute_snapshot_hash : RuntimeSnapshot → Bytes
  unfolding write_quarantine_set write_tombstone_set write_revocation_set
  compute_snapshot_hash snap = p.sha256 (
      big_endian 8 snap.version
      ++ (big_endian 8 snap.event_count
          ++ (snap.highest_event_id
              ++ (write_quarantine_set snap.quarantined
                  ++ (write_tombstone_set snap.tombstoned ++ write_revocation_set snap.revoked)))))

  abbrev with_hash : RuntimeSnapshot → RuntimeSnapshot
  with_hash snap = record snap { snapshot_hash = compute_snapshot_hash snap }

  unfoldable pub new_empty_snapshot : ℕ → Time → RuntimeSnapshot
  new_empty_snapshot version created_at = with_hash (record {
    version = version;
    snapshot_hash = zeros 32;
    created_at_unix = unix created_at;
    highest_event_id = zeros 16;
    event_count = 0;
    blocks = no_blocks;
  })

  unfoldable pub compile_snapshot : List RevocationEvent → ℕ → Time → RuntimeSnapshot
  unfolding apply_events last_event_id
  compile_snapshot events version created_at = with_hash (record {
    version = version;
    snapshot_hash = zeros 32;
    created_at_unix = unix created_at;
    highest_event_id = last_event_id (zeros 16) events;
    event_count = length events % 2 ^ 64;
    blocks = apply_events no_blocks events;
  })

-- The order of the maps in a lookup: tombstones, quarantines, revocations.
unfoldable pub lookup_blocks : Blocks → Bytes → RuntimeDecision
lookup_blocks b id = elim (Dict.get b.tombstoned id) [
  | some t ↦ record {
    decision = delete_requested;
    reason = reason_deletion_requested;
    state_ref = t.event_id;
  }
  | none ↦ elim (Dict.get b.quarantined id) [
    | some q ↦ record { decision = quarantine; reason = q.reason_code; state_ref = q.event_id }
    | none ↦ elim (Dict.get b.revoked id) [
      | some r ↦ record {
        decision = refuse;
        reason = reason_memory_revoked;
        state_ref = r.event_id;
      }
      | none ↦ record {
        decision = use_memory;
        reason = text "RUNTIME_STATE_CLEAR";
        state_ref = zeros 16;
      }
    ]
  ]
]

-- `LookupWithSnapshot`; `none` is a nil pointer.
unfoldable pub lookup_with_snapshot : Option RuntimeSnapshot → Bytes → RuntimeDecision
unfolding lookup_blocks
lookup_with_snapshot none id = record {
  decision = use_memory;
  reason = text "RUNTIME_STATE_UNINITIALIZED";
  state_ref = zeros 16;
}
lookup_with_snapshot (some snap) id = lookup_blocks snap.blocks id
