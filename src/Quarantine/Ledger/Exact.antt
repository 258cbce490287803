-- ===== src/Quarantine/Ledger/Exact.antt =====
-- Which files a replay accepts.
use veraxis_memory_admissibi.Prelude.{
  ℕ, zero, suc, ◌≤◌, ◌<◌, ◌≡◌, refl, ap, ◌∙◌, ◌↔◌, List, [], ◌∷◌, ◌++◌, length, arith,
  length-append, All, All-split,
}
use mathlib.Core.List.{append_assoc, append-nil}
use mathlib.Core.Path.{subst}
use veraxis_memory_admissibi.Prelude.Bytes.{Bytes, IsByte}
use veraxis_memory_admissibi.Prelude.Result.{ok, ◌>>=◌, >>=-ok_elim}
use veraxis_memory_admissibi.Platform.{Platform}
use veraxis_memory_admissibi.Quarantine.Event.{RevocationEvent}
use veraxis_memory_admissibi.Quarantine.Ledger.{Codec, read_record, replay_loop, replay_from}
use veraxis_memory_admissibi.Quarantine.Ledger.Frames.{
  frame, length-frame, read_record-frame, IsPayload,
}
use veraxis_memory_admissibi.Quarantine.Ledger.Sound.{read_record-Pieces, frame_of_Pieces}

module _ ⦃p : Platform⦄ (json : Codec) where
  -- A file holds the events of a list: it is one record after the other, whose payloads decode to
  -- the events in order.
  abbrev pub Holds : Bytes → List RevocationEvent → Type 0
  Holds content [] = content ≡ []
  Holds content (e ∷ es) =
      (payload : Bytes) × (rest : Bytes) × (content ≡ frame payload ++ rest)
      × IsPayload payload
      × (json.unmarshal payload ≡ ok e)
      × Holds rest es

  replay_loop_step :
      (fuel : ℕ) (input : Bytes) (acc : List RevocationEvent)
      → 0 < length input
      → replay_loop json (suc fuel) input acc ≡ (
          read_record json input >>= λ (event, rest).
          replay_loop json fuel rest (acc ++ event ∷ []))
  unfolding replay_loop
  replay_loop_step fuel [] acc h = absurd (omega arith)
  replay_loop_step fuel (b ∷ bs) acc h = refl

  replay_loop_complete :
      (fuel : ℕ) (input : Bytes) (acc es : List RevocationEvent)
      → Holds input es
      → length input ≤ fuel
      → replay_loop json fuel input acc ≡ ok (acc ++ es)
  replay_loop_complete fuel input acc [] h enough =
      rw (h, append-nil acc) (unfold replay_loop in refl)
  replay_loop_complete zero input acc (e ∷ es) (payload, rest, w, fits, d, h) enough =
      absurd (omega (arith, ap length w, length-append (frame payload) rest, length-frame payload))
  replay_loop_complete (suc fuel) input acc (e ∷ es) (payload, rest, w, fits, d, h) enough =
      let size = length-append (frame payload) rest in
      let width = length-frame payload in
      let eq = ap length w in
      rw (
        w,
        replay_loop_step fuel (frame payload ++ rest) acc (omega arith),
        read_record-frame json payload rest fits,
        d,
        replay_loop_complete fuel rest (acc ++ e ∷ []) es h (omega arith),
        append_assoc acc (e ∷ []) es,
      )

  replay_loop_sound :
      (fuel : ℕ) (input : Bytes) (acc out : List RevocationEvent)
      → All IsByte input
      → replay_loop json fuel input acc ≡ ok out
      → (es : List RevocationEvent) × (out ≡ acc ++ es) × Holds input es
  unfolding replay_loop
  replay_loop_sound fuel [] acc out bytes h = ([], cc (append-nil acc), refl)
  replay_loop_sound zero (b ∷ bs) acc out bytes h = absurd (cc)
  replay_loop_sound (suc fuel) (b ∷ bs) acc out bytes h =
      >>=-ok_elim (read_record json (b ∷ bs)) _ h λ (event, rest) e k.
        let q = read_record-Pieces json (b ∷ bs) event rest e in
        let (w, fits) = frame_of_Pieces json (b ∷ bs) event rest bytes q in
        let rest_bytes = (All-split IsByte (frame q.payload) rest (subst (All IsByte) w bytes)).1 in
        let (es, out_eq, held) = replay_loop_sound fuel rest (acc ++ event ∷ []) out rest_bytes k in
        (
          event ∷ es,
          out_eq ∙ append_assoc acc (event ∷ []) es,
          (q.payload, rest, w, fits, q.decoded, held),
        )

  -- A replay of a file of bytes succeeds with a list of events exactly when the file holds them:
  -- when it is whole records one after the other, each with its length, the magic number, a payload
  -- that decodes to the event, and the checksum of these.
  pub replay_iff :
      (content : Bytes) (es : List RevocationEvent)
      → All IsByte content
      → (replay_from json content ≡ ok es) ↔ Holds content es
  unfolding replay_from
  replay_iff content es bytes = (
    λ h.
        let (fs, eq, held) = replay_loop_sound (length content) content [] es bytes h in
        rw (← eq) at held,
    λ held. replay_loop_complete (length content) content [] es held (omega arith),
  )

  pub replay_complete :
      (content : Bytes) (es : List RevocationEvent)
      → Holds content es
      → replay_from json content ≡ ok es
  unfolding replay_from
  replay_complete content es held =
      replay_loop_complete (length content) content [] es held (omega arith)
