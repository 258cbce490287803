-- ===== src/Quarantine/Snapshot/History.antt =====
-- What a history of events means for a lookup.
use veraxis_memory_admissibi.Prelude.{
  ◌≡◌, ◌≢◌, refl, ◌∙◌, ◌⊎◌, Bool, true, false, List, [], ◌∷◌, ◌++◌, arith, All,
}
use veraxis_memory_admissibi.Prelude.Bytes.{Bytes, bytes_eq_iff, bytes_eq_refl}
use veraxis_memory_admissibi.Evaluate.{use_memory, delete_requested, quarantine}
use veraxis_memory_admissibi.Quarantine.Event.{EventType, RevocationEvent}
use veraxis_memory_admissibi.Quarantine.Snapshot.{no_blocks, apply_events, lookup_blocks}
use veraxis_memory_admissibi.Quarantine.Snapshot.Standing.{
  Standing, clear, deleted, standing_step, next_standing, standing, verdict, lookup-standing,
  standing-append,
}

-- What every event of a kind keeps, a history of such events keeps.
standing_inv :
    {P : Standing → Type 0} {Q : RevocationEvent → Type 0} (id : Bytes)
    → ((s : Standing) (e : RevocationEvent) → Q e → P s → P (next_standing id s e))
    → (s : Standing) (es : List RevocationEvent) → All Q es
    → P s
    → P (standing id s es)
unfolding standing
standing_inv id keep s [] q h = h
standing_inv id keep s (e ∷ es) (q, qs) h =
    standing_inv id keep (next_standing id s e) es qs (keep s e q h)

abbrev is_deleted : Standing → Bool
is_deleted (deleted id) = true
is_deleted _ = false

deleted_step :
    (id : Bytes) (s : Standing) (e : RevocationEvent)
    → Unit {0}
    → is_deleted s ≡ true
    → is_deleted (next_standing id s e) ≡ true
deleted_step id s e _ h = ground arith

All-trivial : (es : List RevocationEvent) → All (λ _. Unit {0}) es
All-trivial [] = tt
All-trivial (e ∷ es) = (tt, All-trivial es)

verdict_deleted : (s : Standing) → is_deleted s ≡ true → (verdict s).decision ≡ delete_requested
verdict_deleted s h = ground arith

-- The standing of a memory behind an event that names it.
standing_from :
    (before after : List RevocationEvent) (e : RevocationEvent)
    → standing e.memory_id clear (before ++ e ∷ after)
      ≡ standing e.memory_id
          (standing_step e.event_type e (standing e.memory_id clear before))
          after
unfolding standing
standing_from before after e =
    standing-append e.memory_id clear before (e ∷ after) ∙ rw (bytes_eq_refl e.memory_id) refl

-- Once a deletion of a memory is in the history, whatever comes before or after it, the lookup of
-- that memory answers with a deletion.
pub deletion_permanent :
    (before after : List RevocationEvent) (e : RevocationEvent)
    → e.event_type ≡ EventType.delete_requested
    → (lookup_blocks (apply_events no_blocks (before ++ e ∷ after)) e.memory_id).decision
      ≡ delete_requested
deletion_permanent before after e t =
    rw (lookup-standing, standing_from before after e)
      (verdict_deleted _ (
        standing_inv {P = λ s. is_deleted s ≡ true} {Q = λ _. Unit} e.memory_id
          (deleted_step e.memory_id)
          (standing_step e.event_type e (standing e.memory_id clear before)) after
          (All-trivial after) (rw t refl)))

-- The events that block a memory, and those that do not clear it.
abbrev pub Blocking : EventType → Type 0
Blocking EventType.clear_quarantine = ⊥
Blocking (EventType.unknown n) = ⊥
Blocking _ = Unit

abbrev pub KeepsBlocked : Bytes → RevocationEvent → Type 0
KeepsBlocked id e = (e.event_type ≢ EventType.clear_quarantine) ⊎ (e.memory_id ≢ id)

abbrev is_clear : Standing → Bool
is_clear clear = true
is_clear _ = false

blocked_step :
    (id : Bytes) (s : Standing) (e : RevocationEvent)
    → KeepsBlocked id e
    → is_clear s ≡ false
    → is_clear (next_standing id s e) ≡ false
blocked_step id s e k h = ground (arith, bytes_eq_iff e.memory_id id)

blocking_step :
    (s : Standing) (e : RevocationEvent) (t : EventType)
    → Blocking t
    → is_clear (standing_step t e s) ≡ false
blocking_step s e EventType.clear_quarantine h = absurd h
blocking_step s e (EventType.unknown n) h = absurd h
blocking_step s e t h = ground arith

verdict_blocked : (s : Standing) → is_clear s ≡ false → (verdict s).decision ≢ use_memory
verdict_blocked s h = ground arith

-- A quarantine, a revocation or a deletion of a memory keeps it from use until an event clears that
-- very memory.
pub blocked_until_cleared :
    (before after : List RevocationEvent) (e : RevocationEvent)
    → Blocking e.event_type
    → All (KeepsBlocked e.memory_id) after
    → (lookup_blocks (apply_events no_blocks (before ++ e ∷ after)) e.memory_id).decision
      ≢ use_memory
blocked_until_cleared before after e b keep =
    rw (lookup-standing, standing_from before after e)
      (verdict_blocked _ (
        standing_inv {P = λ s. is_clear s ≡ false} {Q = KeepsBlocked e.memory_id} e.memory_id
          (blocked_step e.memory_id)
          (standing_step e.event_type e (standing e.memory_id clear before)) after keep
          (blocking_step _ e e.event_type b)))

-- The events after which a lookup answers with a quarantine.
abbrev pub Quarantining : EventType → Type 0
Quarantining EventType.delete_requested = ⊥
Quarantining EventType.revoke_memory = ⊥
Quarantining t = Blocking t

lost_revocation :
    (s : Standing) (r q c : RevocationEvent) (t : EventType)
    → Quarantining t
    → is_deleted s ≡ false
    → standing_step EventType.clear_quarantine c
        (standing_step t q (standing_step EventType.revoke_memory r s))
      ≡ clear
lost_revocation s r q c t h k = ground arith

undeleted_step :
    (id : Bytes) (s : Standing) (e : RevocationEvent)
    → e.event_type ≢ EventType.delete_requested
    → is_deleted s ≡ false
    → is_deleted (next_standing id s e) ≡ false
undeleted_step id s e k h = ground arith

three_steps :
    (id : Bytes) (s : Standing) (r q c : RevocationEvent)
    → r.memory_id ≡ id
    → q.memory_id ≡ id
    → c.memory_id ≡ id
    → standing id s (r ∷ q ∷ c ∷ [])
      ≡ standing_step c.event_type c (standing_step q.event_type q (standing_step r.event_type r s))
unfolding standing
three_steps id s r q c mr mq mc = rw (
  (bytes_eq_iff r.memory_id id).1 mr,
  (bytes_eq_iff q.memory_id id).1 mq,
  (bytes_eq_iff c.memory_id id).1 mc,
)

-- A revocation does not outlive a quarantine: of a memory that no event deletes, a revocation, a
-- quarantine and a clearance in that order leave the memory in use.
pub quarantine_lifts_revocation :
    (before : List RevocationEvent) (r q c : RevocationEvent) (id : Bytes)
    → All (λ e. e.event_type ≢ EventType.delete_requested) before
    → r.memory_id ≡ id
    → q.memory_id ≡ id
    → c.memory_id ≡ id
    → r.event_type ≡ EventType.revoke_memory
    → Quarantining q.event_type
    → c.event_type ≡ EventType.clear_quarantine
    → (lookup_blocks (apply_events no_blocks (before ++ r ∷ q ∷ c ∷ [])) id).decision ≡ use_memory
quarantine_lifts_revocation before r q c id none_deleted mr mq mc tr tq tc =
    let start = standing id clear before in
    let undeleted : is_deleted start ≡ false =
      standing_inv {P = λ s. is_deleted s ≡ false} id (undeleted_step id) clear before none_deleted
        refl in
    rw (
      lookup-standing,
      standing-append id clear before (r ∷ q ∷ c ∷ []),
      three_steps id start r q c mr mq mc,
      tr,
      tc,
      lost_revocation start r q c q.event_type tq undeleted,
    )

quarantining_step :
    (e : RevocationEvent) (t : EventType)
    → Quarantining t
    → (verdict (standing_step t e clear)).decision ≡ quarantine
quarantining_step e t h = ground arith

-- An event that quarantines a memory that no event named before makes a lookup answer so.
pub quarantined_at_once :
    (e : RevocationEvent)
    → Quarantining e.event_type
    → (lookup_blocks (apply_events no_blocks (e ∷ [])) e.memory_id).decision ≡ quarantine
unfolding standing
quarantined_at_once e h =
    rw (lookup-standing, standing_from [] [] e) (quarantining_step e e.event_type h)

unnamed_step :
    (id : Bytes) (s : Standing) (e : RevocationEvent)
    → e.memory_id ≢ id
    → s ≡ clear
    → next_standing id s e ≡ clear
unnamed_step id s e k h = ground (arith, bytes_eq_iff e.memory_id id)

-- A memory that no event of a history names is in use.
pub unnamed_used :
    (es : List RevocationEvent) (id : Bytes)
    → All (λ e. e.memory_id ≢ id) es
    → (lookup_blocks (apply_events no_blocks es) id).decision ≡ use_memory
unnamed_used es id unnamed =
    rw
      (
        lookup-standing,
        standing_inv {P = λ s. s ≡ clear} {Q = λ e. e.memory_id ≢ id} id (unnamed_step id) clear es
            unnamed refl,
      )
      refl
