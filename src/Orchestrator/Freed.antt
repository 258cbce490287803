-- ===== src/Orchestrator/Freed.antt =====
-- When a handoff is refused for want of a slot, and when it is admitted again.
use veraxis_memory_admissibi.Prelude.{
  ◌≤◌, ◌==◌, ==_iff, ◌≡◌, ◌≢◌, ◌↔◌, refl, sym, ap, ◌∙◌, true, false, Option, none, some, List, [],
  ◌∷◌, length, length-append, arith,
}
use veraxis_memory_admissibi.Prelude.Bytes.{Bytes, GoString}
use veraxis_memory_admissibi.Prelude.Int.{ℤ}
use veraxis_memory_admissibi.Prelude.Result.{ok, err}
use veraxis_memory_admissibi.Gateway.{ClientWrapper}
use veraxis_memory_admissibi.Gateway.Inference.Types.{Context, Provider}
use veraxis_memory_admissibi.Orchestrator.{
  new_handoff_coordinator, acquire, release, admit, admitted,
}
use veraxis_memory_admissibi.Orchestrator.Types.{HandoffCoordinator, Handoff, backpressure}
use veraxis_memory_admissibi.Orchestrator.Slots.{
  Handoffs, Ends, ends, concludes, Reach, later, Sound, fresh, Reach-fresh, slots_bounded,
}

acquire-cases :
    (c : HandoffCoordinator)
    → c.in_flight ≤ c.capacity
    → (acquire c ≡ none) ↔ (c.in_flight ≡ c.capacity)
unfolding acquire
acquire-cases c bounded = ground arith

pub admit-acquire :
    (ctx : Context) (c : HandoffCoordinator) (w : ClientWrapper) (provider : Provider)
    → ctx 0 ≡ false
    → c.gateway_wrapper ≡ some w
    → c.provider ≡ some provider
    → length c.signing_key ≡ 64
    → admit ctx (some c) ≡ admitted w provider (acquire c)
unfolding admit
admit-acquire ctx c w provider live has_wrapper has_provider sized =
    let sized_test : (length c.signing_key == 64) ≡ true = (==_iff _ 64).1 sized in
    rw (live, has_wrapper, has_provider, sized_test) refl

module _ (w : ClientWrapper) (provider : Provider) (key_id : GoString) (key : Bytes) (max : ℤ) where
  admit-fresh :
      {s : Handoffs} (ctx : Context)
      → Reach (fresh w provider key_id key max) s
      → length key ≡ 64
      → ctx 0 ≡ false
      → admit ctx (some s.coordinator) ≡ admitted w provider (acquire s.coordinator)
  unfolding new_handoff_coordinator
  admit-fresh {s} ctx r sized live =
      let same = (Reach-fresh w provider key_id key max r).configured in
      admit-acquire ctx s.coordinator w provider live (ap (λ d. d.gateway_wrapper) same)
        (ap (λ d. d.provider) same) (ap (λ d. length d.signing_key) same ∙ sized)

  refused_iff :
      (o : Option HandoffCoordinator) → (admitted w provider o ≡ err backpressure) ↔ (o ≡ none)
  refused_iff none = (λ _. refl, λ _. refl)
  refused_iff (some c) = (λ e. absurd (cc), λ e. absurd (cc))

  -- Under a new coordinator with a key of 64 bytes, a handoff whose context is not done is refused
  -- for backpressure exactly when as many handoffs run as the capacity says.
  pub backpressure_iff :
      {s : Handoffs} (ctx : Context)
      → Reach (fresh w provider key_id key max) s
      → length key ≡ 64
      → ctx 0 ≡ false
      → (admit ctx (some s.coordinator) ≡ err backpressure)
        ↔ (length s.running ≡ (fresh w provider key_id key max).capacity)
  backpressure_iff {s} ctx r sized live =
      let i = Reach-fresh w provider key_id key max r in
      let same = ap (λ d. d.capacity) i.configured in
      let found = admit-fresh ctx r sized live in
      let full = acquire-cases s.coordinator i.bounded in
      let refused = refused_iff (acquire s.coordinator) in
      (
        λ e.
            let full_now = full.0 (refused.0 (sym found ∙ e)) in
            omega (arith, full_now, i.counted, same),
        λ e. found ∙ refused.1 (full.1 (omega (arith, e, i.counted, same))),
      )

  some_admitted :
      (o : Option HandoffCoordinator)
      → o ≢ none
      → (held : HandoffCoordinator) × (admitted w provider o ≡ ok (held, w, provider))
  some_admitted none h = absurd (h refl)
  some_admitted (some held) h = (held, refl)

  room_after :
      {s t : Handoffs}
      → Sound (fresh w provider key_id key max) s
      → Ends s t
      → acquire t.coordinator ≢ none
  unfolding release acquire
  room_after i (ends c before h after) e =
      let some_run = length-append before (h ∷ after) in
      ground (arith, i.bounded, i.counted, some_run)

  first-Ends : (s : Handoffs) → s.running ≢ [] → (t : Handoffs) × Ends s t
  first-Ends s found = go s.coordinator s.running found
    where
      go :
          (c : HandoffCoordinator) (running : List Handoff)
          → running ≢ []
          → (t : Handoffs) × Ends (record { coordinator = c; running = running }) t
      go c [] h = absurd (h refl)
      go c (h ∷ rest) _ = (record { coordinator = release c; running = rest }, ends c [] h rest)

  -- Where a handoff was refused, the end of any running one makes room.
  freed_by :
      {s t : Handoffs} (ctx : Context)
      → Reach (fresh w provider key_id key max) s
      → length key ≡ 64
      → ctx 0 ≡ false
      → Ends s t
      → (held : HandoffCoordinator) × (admit ctx (some t.coordinator) ≡ ok (held, w, provider))
  freed_by {t = t} ctx r sized live e =
      let (held, got) =
        some_admitted (acquire t.coordinator)
          (room_after (Reach-fresh w provider key_id key max r) e) in
      (held, admit-fresh ctx (later r (concludes e)) sized live ∙ got)

  -- When a handoff is refused for backpressure under a new coordinator with a key of 64 bytes, a
  -- running handoff can end, and the coordinator that this leaves admits the refused one, if its
  -- context is not done.
  pub slot_freed :
      {s : Handoffs} (ctx : Context)
      → Reach (fresh w provider key_id key max) s
      → length key ≡ 64
      → ctx 0 ≡ false
      → admit ctx (some s.coordinator) ≡ err backpressure
      → (t : Handoffs) × Ends s t
        × (held : HandoffCoordinator) × (admit ctx (some t.coordinator) ≡ ok (held, w, provider))
  slot_freed {s} ctx r sized live refused =
      let full = (backpressure_iff ctx r sized live).0 refused in
      let (_, _, positive) = slots_bounded w provider key_id key max r in
      let some_run : s.running ≢ [] = λ e.
        let none_run : length s.running ≡ 0 = ap length e in
        omega (arith, full, positive, none_run) in
      let (t, e) = first-Ends s some_run in
      let (held, got) = freed_by ctx r sized live e in (t, e, held, got)
