-- ===== src/Orchestrator/Slots.antt =====
-- Handoffs that run at the same time under one coordinator, interleaved in any order.
use mathlib.Core.Path.{subst}
use veraxis_memory_admissibi.Prelude.{
  ◌≤◌, ◌≡◌, refl, ap, Option, some, List, [], ◌∷◌, ◌++◌, length, length-append, arith,
}
use veraxis_memory_admissibi.Prelude.Bytes.{Bytes, GoString}
use veraxis_memory_admissibi.Prelude.Int.{ℤ}
use veraxis_memory_admissibi.Prelude.Result.{ok}
use veraxis_memory_admissibi.Gateway.{ClientWrapper}
use veraxis_memory_admissibi.Gateway.Inference.Types.{Context, Provider}
use veraxis_memory_admissibi.Orchestrator.{new_handoff_coordinator, release, admit}
use veraxis_memory_admissibi.Orchestrator.Types.{HandoffCoordinator, Handoff}
use veraxis_memory_admissibi.Orchestrator.Admission.{acquire-some, admit-ok}

-- The coordinator, and the handoffs that hold a slot.
pub record Handoffs : Type 0 where
  pub coordinator : HandoffCoordinator
  pub running : List Handoff

-- A running handoff comes to its end, with whatever result.
pub data Ends : Handoffs → Handoffs → Type 0 where
  ends :
      (c : HandoffCoordinator) (before : List Handoff) (h : Handoff) (after : List Handoff)
      → Ends
          (record { coordinator = c; running = before ++ h ∷ after })
          (record { coordinator = release c; running = before ++ after })

pub data Step : Handoffs → Handoffs → Type 0 where
  begins :
      (ctx : Context) (c held : HandoffCoordinator) (w : ClientWrapper) (provider : Provider)
      (h : Handoff) (running : List Handoff)
      → admit ctx (some c) ≡ ok (held, w, provider)
      → Step
          (record { coordinator = c; running = running })
          (record { coordinator = held; running = h ∷ running })
  concludes : {s t : Handoffs} → Ends s t → Step s t

pub data Reach (c : HandoffCoordinator) : Handoffs → Type 0 where
  start : Reach c (record { coordinator = c; running = [] })
  later : {s t : Handoffs} → Reach c s → Step s t → Reach c t

-- The slots that are taken are those of the running handoffs, and the configuration stays.
pub record Sound (c : HandoffCoordinator) (s : Handoffs) : Type 0 where
  pub counted : s.coordinator.in_flight ≡ length s.running
  pub bounded : s.coordinator.in_flight ≤ s.coordinator.capacity
  pub configured : record (s.coordinator) { in_flight = 0 } ≡ record c { in_flight = 0 }

Ends-Sound : {c : HandoffCoordinator} {s t : Handoffs} → Ends s t → Sound c s → Sound c t
unfolding release
Ends-Sound (ends c before h after) i = record {
  counted = omega (arith, i.counted, length-append before after, length-append before (h ∷ after));
  bounded = omega (arith, i.bounded);
  configured = i.configured;
}

Step-Sound : {c : HandoffCoordinator} {s t : Handoffs} → Step s t → Sound c s → Sound c t
Step-Sound (concludes e) i = Ends-Sound e i
Step-Sound {c = c₀} (begins ctx c held w provider h running made) i =
    let (free, same) = acquire-some c held (admit-ok ctx c held w provider made).0 in
    subst (λ d. Sound c₀ (record { coordinator = d; running = h ∷ running })) same
      (record {
        counted = omega (arith, i.counted);
        bounded = ground (arith, i.bounded, free);
        configured = i.configured;
      })

new_capacity :
    (wrapper : Option ClientWrapper) (provider : Option Provider) (key_id : GoString) (key : Bytes)
    (max : ℤ)
    → 1 ≤ (new_handoff_coordinator wrapper provider key_id key max).capacity
unfolding new_handoff_coordinator
new_capacity wrapper provider key_id key max = ground arith

Reach-Sound : {c : HandoffCoordinator} {s : Handoffs} → c.in_flight ≡ 0 → Reach c s → Sound c s
Reach-Sound {c} none_yet start = record {
  counted = none_yet;
  bounded = omega (arith, none_yet);
  configured = refl;
}
Reach-Sound none_yet (later r e) = Step-Sound e (Reach-Sound none_yet r)

module _ (w : ClientWrapper) (provider : Provider) (key_id : GoString) (key : Bytes) (max : ℤ) where
  abbrev pub fresh : HandoffCoordinator
  fresh = new_handoff_coordinator (some w) (some provider) key_id key max

  pub Reach-fresh : {s : Handoffs} → Reach fresh s → Sound fresh s
  unfolding new_handoff_coordinator
  Reach-fresh r = Reach-Sound refl r

  -- However handoffs begin and end under a new coordinator, the slots that are taken are as many as
  -- the handoffs that run, and these are no more than the capacity, which is at least 1.
  pub slots_bounded :
      {s : Handoffs}
      → Reach fresh s
      → (s.coordinator.in_flight ≡ length s.running)
        × (length s.running ≤ fresh.capacity)
        × (1 ≤ fresh.capacity)
  slots_bounded {s} r =
      let i = Reach-fresh r in
      let same = ap (λ d. d.capacity) i.configured in
      (i.counted, omega (arith, i.counted, i.bounded, same), new_capacity _ _ key_id key max)
