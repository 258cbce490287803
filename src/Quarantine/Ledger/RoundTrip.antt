-- ===== src/Quarantine/Ledger/RoundTrip.antt =====
-- Appending to the ledger and replaying it.
use veraxis_memory_admissibi.Prelude.{
  ◌≡◌, refl, sym, ap, ◌∙◌, true, none, List, [], ◌∷◌, ◌++◌, arith, All,
}
use mathlib.Core.List.{append_assoc, append-nil}
use mathlib.Core.Path.{subst}
use veraxis_memory_admissibi.Prelude.Bytes.{Bytes}
use veraxis_memory_admissibi.Prelude.Result.{ok}
use veraxis_memory_admissibi.Platform.{Platform}
use veraxis_memory_admissibi.Quarantine.Event.{RevocationEvent}
use veraxis_memory_admissibi.Quarantine.Ledger.{
  Codec, FileLedger, healthy, write_all, payload_error, append_event, record_writes, finish_append,
  append_payload, replay_genesis,
}
use veraxis_memory_admissibi.Quarantine.Ledger.Frames.{frame, IsPayload}
use veraxis_memory_admissibi.Quarantine.Ledger.Exact.{Holds, replay_complete}

-- The codec encodes the event to a payload that fits a record, and decodes it again.
pub record IsStored (json : Codec) (event : RevocationEvent) : Type 0 where
  pub payload : Bytes
  pub encoded : json.marshal event ≡ ok payload
  pub fits : IsPayload payload
  pub decoded : json.unmarshal payload ≡ ok event

pub payload_fits : (payload : Bytes) → IsPayload payload → payload_error payload ≡ none
payload_fits payload (lo, hi) = ground arith

module _ ⦃p : Platform⦄ where
  written :
      (content payload : Bytes)
      → write_all (record_writes healthy payload) content ≡ (content ++ frame payload, true)
  unfolding write_all frame
  written content payload = simp append_assoc

  append_payload_ok :
      (l : FileLedger) (payload : Bytes)
      → append_payload healthy payload none l
        ≡ (ok tt, record l { content = l.content ++ frame payload })
  append_payload_ok l payload = ap (finish_append l true) (written l.content payload)

module _ ⦃p : Platform⦄ (json : Codec) where
  -- On a device without faults an open ledger gains the record of the event.
  pub append_event-frame :
      (event : RevocationEvent) (l : FileLedger)
      → l.is_open ≡ true
      → (s : IsStored json event)
      → append_event json healthy event l
        ≡ (ok tt, record l { content = l.content ++ frame s.payload })
  unfolding append_event
  append_event-frame event l opened s =
      cc (opened, s.encoded, payload_fits s.payload s.fits, append_payload_ok l s.payload)

  -- A file that gains the record of an event holds one event more.
  pub Holds-append :
      (content : Bytes) (es : List RevocationEvent) (event : RevocationEvent)
      → Holds json content es
      → (s : IsStored json event) → Holds json (content ++ frame s.payload) (es ++ event ∷ [])
  Holds-append content [] event h s =
      (s.payload, [], cc (append-nil (frame s.payload)), s.fits, s.decoded, refl)
  Holds-append content (e ∷ es) event (payload, rest, w, fits, d, h) s = (
    payload,
    rest ++ frame s.payload,
    ap (λ b. b ++ frame s.payload) w ∙ append_assoc (frame payload) rest (frame s.payload),
    fits,
    d,
    Holds-append rest es event h s,
  )

  -- A client that appends one event after the other to a ledger.
  abbrev pub append_each : List RevocationEvent → FileLedger → FileLedger
  append_each [] l = l
  append_each (e ∷ es) l = append_each es (append_event json healthy e l).1

  abbrev pub AreStored : List RevocationEvent → Type 0
  AreStored = All (IsStored json)

  pub append_each-Holds :
      (es fs : List RevocationEvent) (l : FileLedger)
      → l.is_open ≡ true
      → AreStored es
      → Holds json l.content fs
      → ((append_each es l).is_open ≡ true) × Holds json (append_each es l).content (fs ++ es)
  append_each-Holds [] fs l opened h held = (opened, rw (append-nil fs) held)
  append_each-Holds (e ∷ es) fs l opened (s, h) held =
      let l' : FileLedger = record l { content = l.content ++ frame s.payload } in
      let appended = ap (λ q. append_each es q.1) (append_event-frame e l opened s) in
      let (still, all) =
        append_each-Holds es (fs ++ e ∷ []) l' opened h (Holds-append l.content fs e held s) in
      subst (λ m. (m.is_open ≡ true) × Holds json m.content (fs ++ e ∷ es)) (sym appended)
        (still, subst (Holds json _) (append_assoc fs (e ∷ []) es) all)

  -- When an open ledger's file holds some events, and others that the codec stores are appended one
  -- after the other without a device error, a replay gives the events that it held and then the
  -- appended ones, in order.
  pub replay-append_each :
      (es fs : List RevocationEvent) (l : FileLedger)
      → l.is_open ≡ true
      → AreStored es
      → Holds json l.content fs
      → replay_genesis json (append_each es l) ≡ ok (fs ++ es)
  unfolding replay_genesis
  replay-append_each es fs l opened h held =
      let (still, all) = append_each-Holds es fs l opened h held in
      cc (still, replay_complete json (append_each es l).content (fs ++ es) all)
