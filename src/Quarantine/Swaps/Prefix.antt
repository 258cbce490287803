-- ===== src/Quarantine/Swaps/Prefix.antt =====
-- What every interleaving of swaps keeps.
use mathlib.Core.List.{append_assoc, append-nil}
use veraxis_memory_admissibi.Prelude.{ℕ, ◌≡◌, refl, sym, ap, ◌∙◌, some, List, [], ◌∷◌, ◌++◌, All}
use veraxis_memory_admissibi.Prelude.Time.{Time}
use veraxis_memory_admissibi.Platform.{Platform}
use veraxis_memory_admissibi.Quarantine.Event.{RevocationEvent}
use veraxis_memory_admissibi.Quarantine.Snapshot.{compile_snapshot}
use veraxis_memory_admissibi.Quarantine.Monitor.{append_event, swap_active_snapshot, next_version}
use veraxis_memory_admissibi.Quarantine.Swaps.{
  Swaps, Call, copied, loaded, events_of_call, Step, appends, copies, loads, stores, Reach, start,
  later,
}

-- The events are the first ones of a ledger.
abbrev pub IsPrefix : List RevocationEvent → List RevocationEvent → Type 0
IsPrefix es ledger = (rest : List RevocationEvent) × (ledger ≡ es ++ rest)

IsPrefix-append :
    (es ledger : List RevocationEvent) (e : RevocationEvent)
    → IsPrefix es ledger
    → IsPrefix es (ledger ++ e ∷ [])
IsPrefix-append es ledger e (rest, h) =
    (rest ++ e ∷ [], ap (λ l. l ++ e ∷ []) h ∙ append_assoc es rest (e ∷ []))

All-split :
    (P : Call → Type 0) (before : List Call) (c : Call) (after : List Call)
    → All P (before ++ c ∷ after)
    → All P before × P c × All P after
All-split P [] c after (h, hs) = (tt, h, hs)
All-split P (b ∷ before) c after (h, hs) =
    let (front, mid, back) = All-split P before c after hs in ((h, front), mid, back)

All-join :
    (P : Call → Type 0) (before after : List Call)
    → All P before
    → All P after
    → All P (before ++ after)
All-join P [] after _ h = h
All-join P (b ∷ before) after (h, hs) k = (h, All-join P before after hs k)

All-map :
    (P Q : Call → Type 0) (calls : List Call) → ((c : Call) → P c → Q c) → All P calls → All Q calls
All-map P Q [] f _ = tt
All-map P Q (c ∷ calls) f (h, hs) = (f c h, All-map P Q calls f hs)

module _ ⦃p : Platform⦄ where
  -- The active snapshot, and every copy that a call holds, are of first events of the ledger.
  pub record FromPrefix (s : Swaps) : Type 0 where
    pub events : List RevocationEvent
    pub version : ℕ
    pub at : Time
    pub first : IsPrefix events s.monitor.ledger
    pub active : s.monitor.snapshot ≡ some (compile_snapshot events version at)
    pub held : All (λ c. IsPrefix (events_of_call c) s.monitor.ledger) s.calls

  Step-FromPrefix : {s t : Swaps} → Step s t → FromPrefix s → FromPrefix t
  unfolding append_event swap_active_snapshot
  Step-FromPrefix (appends m calls e) i = record {
    events = i.events;
    version = i.version;
    at = i.at;
    first = IsPrefix-append i.events m.ledger e i.first;
    active = i.active;
    held =
        All-map (λ c. IsPrefix (events_of_call c) m.ledger)
          (λ c. IsPrefix (events_of_call c) (m.ledger ++ e ∷ [])) calls
          (λ c. IsPrefix-append (events_of_call c) m.ledger e) i.held;
  }
  Step-FromPrefix (copies m calls) i = record {
    events = i.events;
    version = i.version;
    at = i.at;
    first = i.first;
    active = i.active;
    held = (([], sym (append-nil m.ledger)), i.held);
  }
  Step-FromPrefix (loads m before es after) i =
      let (front, mid, back) =
        All-split (λ c. IsPrefix (events_of_call c) m.ledger) before (copied es) after i.held in
      record {
        events = i.events;
        version = i.version;
        at = i.at;
        first = i.first;
        active = i.active;
        held =
            All-join (λ c. IsPrefix (events_of_call c) m.ledger) before
              (loaded es (next_version m) ∷ after) front (mid, back);
      }
  Step-FromPrefix (stores m before es version after now) i =
      let (front, mid, back) =
        All-split (λ c. IsPrefix (events_of_call c) m.ledger) before (loaded es version) after
          i.held in
      record {
        events = es;
        version = version;
        at = now;
        first = mid;
        active = refl;
        held = All-join (λ c. IsPrefix (events_of_call c) m.ledger) before after front back;
      }

  -- However appends and the parts of swaps interleave, the active snapshot is compiled from the first
  -- events of the ledger, in order, and so are the copies that calls hold first events of the ledger,
  -- when this is so at the start.
  pub swaps-FromPrefix : {s t : Swaps} → FromPrefix s → Reach s t → FromPrefix t
  swaps-FromPrefix i start = i
  swaps-FromPrefix i (later r e) = Step-FromPrefix e (swaps-FromPrefix i r)
