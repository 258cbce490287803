-- ===== src/Quarantine/Ledger/Torn.antt =====
-- Appends on a device that may stop in the middle of a write.
use veraxis_memory_admissibi.Prelude.{
  ℕ, ◌≡◌, ◌≢◌, refl, sym, ap, ◌∙◌, ◌⊎◌, inl, inr, Bool, true, false, List, [], ◌∷◌, ◌++◌, length,
  take, drop, arith, All, length-append, append_inj, take-append-drop, none,
}
use mathlib.Core.List.{append_assoc, append-nil}
use mathlib.Core.Path.{subst}
use veraxis_memory_admissibi.Prelude.Bytes.{
  Bytes, IsByte, big_endian, from_big_endian, length-big_endian, from_big_endian-big_endian_32,
}
use veraxis_memory_admissibi.Prelude.Result.{ok}
use veraxis_memory_admissibi.Platform.{Platform}
use veraxis_memory_admissibi.Quarantine.Event.{RevocationEvent}
use veraxis_memory_admissibi.Quarantine.Ledger.{
  Codec, FileLedger, Device, WriteOutcome, whole, partial, log_magic_number, record_checksum,
  write_all, record_writes, append_event, append_payload, finish_append, replay_from,
  replay_genesis,
}
use veraxis_memory_admissibi.Quarantine.Ledger.Frames.{frame, frame-append, length-frame, IsPayload}
use veraxis_memory_admissibi.Quarantine.Ledger.Exact.{Holds, replay_iff}
use veraxis_memory_admissibi.Quarantine.Ledger.RoundTrip.{IsStored, payload_fits}

module _ ⦃p : Platform⦄ where
  -- Two files that begin with a record each and are equal begin with the same record.
  frame_cancel :
      (a b x y : Bytes)
      → IsPayload a
      → IsPayload b
      → frame a ++ x ≡ frame b ++ y
      → (a ≡ b) × (x ≡ y)
  frame_cancel a b x y (_, fits_a) (_, fits_b) e =
      let e' = sym (frame-append a x) ∙ e ∙ frame-append b y in
      let wide = λ (n : ℕ). length-big_endian 4 n in
      let (sizes, e₁) =
        append_inj (big_endian 4 (length a)) (big_endian 4 (length b)) _ _
          (omega (arith, wide (length a), wide (length b))) e' in
      let same_size : length a ≡ length b =
        sym (from_big_endian-big_endian_32 (length a) fits_a)
        ∙ ap (from_big_endian 0) sizes
        ∙ from_big_endian-big_endian_32 (length b) fits_b in
      let (_, e₂) =
        append_inj (big_endian 2 log_magic_number) (big_endian 2 log_magic_number) _ _ refl e₁ in
      let (same, e₃) = append_inj a b _ _ same_size e₂ in
      let (_, tail) =
        append_inj (record_checksum (length a) log_magic_number a)
          (record_checksum (length b) log_magic_number b) x y (cc) e₃ in
      (same, tail)

  frame-ne-nil : (a x : Bytes) → frame a ++ x ≢ []
  frame-ne-nil a x e = omega (arith, ap length e, length-append (frame a) x, length-frame a)

append-nil_left : (x y : Bytes) → x ++ y ≡ [] → x ≡ []
append-nil_left [] y e = refl
append-nil_left (b ∷ x) y e = absurd (cc)

-- The bytes of some writes.
abbrev all_bytes : List (WriteOutcome × Bytes) → Bytes
all_bytes [] = []
all_bytes ((o, b) ∷ rest) = b ++ all_bytes rest

module _ ⦃p : Platform⦄ (json : Codec) where
  decoded_same :
      {a b : Bytes} {e f : RevocationEvent}
      → a ≡ b
      → json.unmarshal a ≡ ok e
      → json.unmarshal b ≡ ok f
      → e ≡ f
  decoded_same same d d' = cc

  -- A piece of a record that starts with a record is all of it.
  piece_starts :
      (content piece missing rest q : Bytes) (event : RevocationEvent) (s : IsStored json event)
      → frame s.payload ≡ piece ++ missing
      → content ≡ []
      → content ++ piece ≡ frame q ++ rest
      → IsPayload q
      → (s.payload ≡ q) × ([] ≡ rest ++ missing)
  piece_starts content piece missing rest q event s f h w fits =
      frame_cancel s.payload q [] (rest ++ missing) s.fits fits (
        append-nil (frame s.payload)
        ∙ f
        ∙ ap (λ x. x ++ missing) (sym (ap (λ c. c ++ piece) h) ∙ w)
        ∙ append_assoc (frame q) rest missing)

  -- What a file holds that ends with a piece of a record.
  Holds-prefix :
      (content piece missing : Bytes) (es out : List RevocationEvent) (event : RevocationEvent)
      (s : IsStored json event)
      → frame s.payload ≡ piece ++ missing
      → Holds json content es
      → Holds json (content ++ piece) out
      → (out ≡ es) ⊎ (out ≡ es ++ event ∷ [])
  Holds-prefix content piece missing [] [] event s f h k = inl refl
  Holds-prefix content piece missing [] (e ∷ []) event s f h (q, rest, w, fits, d, k) =
      let (same, _) = piece_starts content piece missing rest q event s f h w fits in
      inr (ap (λ x. x ∷ []) (sym (decoded_same same s.decoded d)))
  Holds-prefix content piece missing [] (e ∷ e' ∷ out) event s f h
        (q, rest, w, fits, d, (q', rest', w', fits', d', k)) =
      let (_, gone) = piece_starts content piece missing rest q event s f h w fits in
      absurd (frame-ne-nil q' rest' (sym w' ∙ append-nil_left rest missing (sym gone)))
  Holds-prefix content piece missing (e ∷ es) [] event s f (a, rest, w, fits, d, h) k =
      absurd (frame-ne-nil a rest (sym w ∙ append-nil_left content piece k))
  Holds-prefix content piece missing (e ∷ es) (e' ∷ out) event s f (a, rest, w, fits, d, h)
        (b, rest', w', fits', d', k) =
      let glued : frame a ++ (rest ++ piece) ≡ frame b ++ rest' =
        sym (ap (λ c. c ++ piece) w ∙ append_assoc (frame a) rest piece) ∙ w' in
      let (same, later) = frame_cancel a b (rest ++ piece) rest' fits fits' glued in
      let same_event : e ≡ e' = decoded_same same d d' in
      elim (Holds-prefix rest piece missing es out event s f h
        (subst (λ c. Holds json c out) (sym later) k)) [
          | inl none_more ↦ inl (cc (same_event, none_more))
          | inr one_more ↦ inr (cc (same_event, one_more))
        ]

  -- A write that stops leaves the bytes before it and a first piece of what was to be written.
  write_all-piece :
      (ws : List (WriteOutcome × Bytes)) (content : Bytes)
      → (piece : Bytes) × (missing : Bytes) × ((write_all ws content).0 ≡ content ++ piece)
        × (all_bytes ws ≡ piece ++ missing)
  unfolding write_all
  write_all-piece [] content = ([], [], sym (append-nil content), refl)
  write_all-piece ((whole, b) ∷ rest) content =
      let (piece, missing, e, f) = write_all-piece rest (content ++ b) in
      (
        b ++ piece,
        missing,
        e ∙ append_assoc content b piece,
        ap (λ x. b ++ x) f ∙ sym (append_assoc b piece missing),
      )
  write_all-piece ((partial n, b) ∷ rest) content = (
    take n b,
    drop n b ++ all_bytes rest,
    refl,
    ap (λ x. x ++ all_bytes rest) (sym (take-append-drop n b))
        ∙ append_assoc (take n b) (drop n b) (all_bytes rest),
  )

  finish_append-content :
      (l : FileLedger) (synced : Bool) (w : Bytes × Bool)
      → (finish_append l synced w).1 ≡ record l { content = w.0 }
  finish_append-content l synced (c, false) = refl
  finish_append-content l true (c, true) = refl
  finish_append-content l false (c, true) = refl

  writes_frame :
      (d : Device) (payload : Bytes) → all_bytes (record_writes d payload) ≡ frame payload
  unfolding frame
  writes_frame d payload = simp append-nil refl

  replay_open :
      (l : FileLedger) (out : List RevocationEvent)
      → l.is_open ≡ true
      → replay_genesis json l ≡ ok out
      → replay_from json l.content ≡ ok out
  unfolding replay_genesis
  replay_open l out opened h = cc

  -- The ledger after an append, on any device.
  append_event-content :
      (d : Device) (event : RevocationEvent) (l : FileLedger)
      → l.is_open ≡ true
      → (s : IsStored json event)
      → (append_event json d event l).1
        ≡ record l { content = (write_all (record_writes d s.payload) l.content).0 }
  unfolding append_event
  append_event-content d event l opened s =
      let run : append_event json d event l ≡ append_payload d s.payload none l =
        cc (opened, s.encoded, payload_fits s.payload s.fits) in
      ap (λ q. q.1) run
      ∙ finish_append-content l d.sync_ok (write_all (record_writes d s.payload) l.content)

  -- When an open ledger's file holds some events and one more is appended that the codec stores, on
  -- any device, also one that stops in the middle of a write, then a replay of what is left in the
  -- file, if it succeeds, gives the events that the file held, or these and the appended one.
  pub append_torn :
      (d : Device) (event : RevocationEvent) (l : FileLedger) (es out : List RevocationEvent)
      → l.is_open ≡ true
      → IsStored json event
      → Holds json l.content es
      → All IsByte (append_event json d event l).1.content
      → replay_genesis json (append_event json d event l).1 ≡ ok out
      → (out ≡ es) ⊎ (out ≡ es ++ event ∷ [])
  append_torn d event l es out opened s held bytes h =
      let (piece, missing, e, f) = write_all-piece (record_writes d s.payload) l.content in
      let after : (append_event json d event l).1 ≡ record l { content = l.content ++ piece } =
        append_event-content d event l opened s ∙ ap (λ c. record l { content = c }) e in
      let bytes' : All IsByte (l.content ++ piece) =
        subst (λ m. All IsByte m.content) after bytes in
      let run : replay_from json (l.content ++ piece) ≡ ok out =
        replay_open _ out opened (subst (λ m. replay_genesis json m ≡ ok out) after h) in
      Holds-prefix l.content piece missing es out event s (sym (writes_frame d s.payload) ∙ f) held
        ((replay_iff json (l.content ++ piece) out bytes').0 run)
