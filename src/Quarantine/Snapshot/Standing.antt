-- ===== src/Quarantine/Snapshot/Standing.antt =====
-- The compiled maps against a state machine for one memory.
use veraxis_memory_admissibi.Prelude.{
  ◌≡◌, refl, ◌∙◌, ◌⊎◌, inl, Option, none, some, List, [], ◌∷◌, ◌++◌, arith, if◌then◌else◌, ap,
}
use veraxis_memory_admissibi.Prelude.Bytes.{Bytes, GoString, text, zeros, bytes_eq}
use veraxis_memory_admissibi.Prelude.Dict
use veraxis_memory_admissibi.Prelude.Dict.{get-put, get-remove}
use veraxis_memory_admissibi.Evaluate.{
  use_memory, refuse, quarantine, delete_requested, reason_deletion_requested,
  reason_memory_revoked,
}
use veraxis_memory_admissibi.Quarantine.Event.{EventType, RevocationEvent, reason_code}
use veraxis_memory_admissibi.Quarantine.Snapshot.{
  Blocks, QuarantineState, TombstoneState, RevocationState, RuntimeDecision, no_blocks, apply_type,
  apply_event, apply_events, lookup_blocks,
}

-- Where one memory stands: the event that put it there, and the reason of a quarantine.
pub data Standing : Type 0 where
  clear : Standing
  quarantined : Bytes → GoString → Standing
  revoked : Bytes → Standing
  deleted : Bytes → Standing

-- A deletion is final; a quarantine and a revocation replace one another; a clearance ends a
-- quarantine.
abbrev pub enter : Standing → Standing → Standing
enter (deleted id) next = deleted id
enter _ next = next

abbrev pub lift_quarantine : Standing → Standing
lift_quarantine (quarantined id reason) = clear
lift_quarantine s = s

abbrev pub standing_step : EventType → RevocationEvent → Standing → Standing
standing_step EventType.delete_requested e s = deleted e.event_id
standing_step EventType.revoke_memory e s = enter s (revoked e.event_id)
standing_step EventType.clear_quarantine e s = lift_quarantine s
standing_step (EventType.unknown n) e s = s
standing_step _ e s = enter s (quarantined e.event_id (reason_code e))

-- The events of other memories do not count.
abbrev pub next_standing : Bytes → Standing → RevocationEvent → Standing
next_standing id s e = if bytes_eq e.memory_id id then standing_step e.event_type e s else s

unfoldable pub standing : Bytes → Standing → List RevocationEvent → Standing
standing id s [] = s
standing id s (e ∷ es) = standing id (next_standing id s e) es

abbrev pub verdict : Standing → RuntimeDecision
verdict clear = record {
  decision = use_memory;
  reason = text "RUNTIME_STATE_CLEAR";
  state_ref = zeros 16;
}
verdict (quarantined id why) = record { decision = quarantine; reason = why; state_ref = id }
verdict (revoked id) = record { decision = refuse; reason = reason_memory_revoked; state_ref = id }
verdict (deleted id) = record {
  decision = delete_requested;
  reason = reason_deletion_requested;
  state_ref = id;
}

-- What the maps say of a memory.
abbrev shown : Option TombstoneState → Option QuarantineState → Option RevocationState → Standing
shown (some t) q r = deleted t.event_id
shown none (some q) r = quarantined q.event_id q.reason_code
shown none none (some r) = revoked r.event_id
shown none none none = clear

standing_of : Blocks → Bytes → Standing
standing_of b id =
    shown (Dict.get b.tombstoned id) (Dict.get b.quarantined id) (Dict.get b.revoked id)

lookup-verdict : (b : Blocks) (id : Bytes) → lookup_blocks b id ≡ verdict (standing_of b id)
unfolding lookup_blocks standing_of
lookup-verdict b id = ground arith

-- No memory is in both the quarantine and the revocation map.
Exclusive : Blocks → Bytes → Type 0
Exclusive b id = (Dict.get b.quarantined id ≡ none) ⊎ (Dict.get b.revoked id ≡ none)

module _ (b : Blocks) (e : RevocationEvent) (id : Bytes) where
  apply_type-standing :
      (t : EventType)
      → Exclusive b id
      → standing_of (apply_type t e b) id ≡ (
          if bytes_eq e.memory_id id
          then standing_step t e (standing_of b id)
          else standing_of b id)
  unfolding apply_type standing_of Exclusive
  apply_type-standing (EventType.unknown n) x = ground arith
  apply_type-standing t x = ground (
    arith,
    get-remove b.quarantined e.memory_id id,
    get-remove b.revoked e.memory_id id,
    get-put b.tombstoned e.memory_id id (record { event_id = e.event_id }),
    get-put b.quarantined e.memory_id id
        (record { event_id = e.event_id; reason_code = reason_code e }),
    get-put b.revoked e.memory_id id (record { event_id = e.event_id }),
  )

  apply_type-Exclusive : (t : EventType) → Exclusive b id → Exclusive (apply_type t e b) id
  unfolding apply_type Exclusive
  apply_type-Exclusive (EventType.unknown n) x = x
  apply_type-Exclusive t x = ground (
    arith,
    get-remove b.quarantined e.memory_id id,
    get-remove b.revoked e.memory_id id,
    get-put b.quarantined e.memory_id id
        (record { event_id = e.event_id; reason_code = reason_code e }),
    get-put b.revoked e.memory_id id (record { event_id = e.event_id }),
  )

-- Each event moves the memory's standing as the state machine does.
apply_events-standing :
    (b : Blocks) (es : List RevocationEvent) (id : Bytes)
    → Exclusive b id
    → standing_of (apply_events b es) id ≡ standing id (standing_of b id) es
unfolding apply_events apply_event standing
apply_events-standing b [] id x = refl
apply_events-standing b (e ∷ es) id x =
    apply_events-standing (apply_type e.event_type e b) es id
      (apply_type-Exclusive b e id e.event_type x)
    ∙ ap (λ s. standing id s es) (apply_type-standing b e id e.event_type x)

-- A lookup in the compiled maps answers what the state machine of that one memory says, run over
-- the whole history from `clear`.
pub lookup-standing :
    (es : List RevocationEvent) (id : Bytes)
    → lookup_blocks (apply_events no_blocks es) id ≡ verdict (standing id clear es)
lookup-standing es id =
    lookup-verdict (apply_events no_blocks es) id
    ∙ ap verdict
        (unfold standing_of Exclusive Dict.get in apply_events-standing no_blocks es id (inl refl))

pub standing-append :
    (id : Bytes) (s : Standing) (es fs : List RevocationEvent)
    → standing id s (es ++ fs) ≡ standing id (standing id s es) fs
unfolding standing
standing-append id s [] fs = refl
standing-append id s (e ∷ es) fs = standing-append id (next_standing id s e) es fs
