-- ===== src/Orchestrator/Admission.antt =====
-- The slot that a handoff takes and gives back.
use mathlib.Core.Path.{subst}
use veraxis_memory_admissibi.Prelude.{
  ℕ, ◌+◌, ◌-◌, ◌==◌, ◌≡◌, refl, ap, ◌∙◌, true, not, Option, none, some, length, arith, Bool-cases,
  inl, inr, ltb,
}
use veraxis_memory_admissibi.Prelude.Result.{Result, ok, err, >>=-ok_elim, reject-ok_elim}
use veraxis_memory_admissibi.Prelude.Time.{Time}
use veraxis_memory_admissibi.Platform.{Platform}
use veraxis_memory_admissibi.Gateway.{ClientWrapper}
use veraxis_memory_admissibi.Gateway.Inference.Types.{Context, Provider, given_context}
use veraxis_memory_admissibi.Orchestrator.{
  acquire, release, admit, admitted, required, conclude_handoff, execute_agent_handoff,
}
use veraxis_memory_admissibi.Orchestrator.Types.{HandoffCoordinator, HandoffError, Handoff}

pub acquire-some :
    (c held : HandoffCoordinator)
    → acquire c ≡ some held
    → (ltb c.in_flight c.capacity ≡ true) × (record c { in_flight = c.in_flight + 1 } ≡ held)
unfolding acquire
acquire-some c held h = elim (Bool-cases (ltb c.in_flight c.capacity)) [
  | inl free ↦ (free, cc)
  | inr full ↦ absurd (cc)
]

pub release-acquire : (c held : HandoffCoordinator) → acquire c ≡ some held → release held ≡ c
unfolding release
release-acquire c held h =
    let back : (n : ℕ) → n + 1 - 1 ≡ n = λ n. omega arith in
    subst (λ d. release d ≡ c) (acquire-some c held h).1
      (ap (λ n. record c { in_flight = n }) (back c.in_flight))

required-some {ℓ} : {A : Type ℓ} (o : Option A) (a : A) → required o ≡ ok a → o ≡ some a
required-some none a h = absurd (cc)
required-some (some b) a h = cc

admitted-ok :
    (w w₁ : ClientWrapper) (provider p₁ : Provider) (o : Option HandoffCoordinator)
    (held : HandoffCoordinator)
    → admitted w₁ p₁ o ≡ ok (held, w, provider)
    → (o ≡ some held) × (w₁ ≡ w) × (p₁ ≡ provider)
admitted-ok w w₁ provider p₁ none held h = absurd (cc)
admitted-ok w w₁ provider p₁ (some c) held h = (cc, cc, cc)

pub admit-ok :
    (ctx : Context) (c held : HandoffCoordinator) (w : ClientWrapper) (provider : Provider)
    → admit ctx (some c) ≡ ok (held, w, provider)
    → (acquire c ≡ some held) × (c.gateway_wrapper ≡ some w) × (c.provider ≡ some provider)
unfolding admit
admit-ok ctx c held w provider h = reject-ok_elim (ctx 0) _ _ h λ _ h₁.
    >>=-ok_elim (required c.gateway_wrapper) _ h₁ λ w₁ found_w h₂.
      >>=-ok_elim (required c.provider) _ h₂ λ p₁ found_p h₃.
        reject-ok_elim (not (length c.signing_key == 64)) _ _ h₃ λ _ h₄.
          let (got, same_w, same_p) = admitted-ok w w₁ provider p₁ (acquire c) held h₄ in
          (
            got,
            required-some c.gateway_wrapper w₁ found_w ∙ ap some same_w,
            required-some c.provider p₁ found_p ∙ ap some same_p,
          )

conclude-slots :
    ⦃p : Platform⦄ (now : Time) (ctx : Context) (h : Handoff) (c : HandoffCoordinator)
    (m : Result HandoffError (HandoffCoordinator × ClientWrapper × Provider))
    → admit ctx (some c) ≡ m
    → (conclude_handoff now ctx h (some c) m).1 ≡ some c
unfolding conclude_handoff
conclude-slots now ctx h c (err e) made = refl
conclude-slots now ctx h c (ok (held, w, provider)) made =
    ap some (release-acquire c held (admit-ok ctx c held w provider made).0)

conclude-none :
    ⦃p : Platform⦄ (now : Time) (ctx : Context) (h : Handoff)
    (m : Result HandoffError (HandoffCoordinator × ClientWrapper × Provider))
    → admit ctx none ≡ m
    → (conclude_handoff now ctx h none m).1 ≡ none
unfolding conclude_handoff admit
conclude-none now ctx h (err e) made = refl
conclude-none now ctx h (ok x) made = reject-ok_elim (ctx 0) _ _ made λ _ h₁. absurd (cc)

module _ ⦃p : Platform⦄ where
  -- A handoff leaves the coordinator as it was, whatever its result is: the slot that it takes is
  -- given back on every path.
  pub handoff-slots :
      (now : Time) (ctx : Option Context) (c : Option HandoffCoordinator) (h : Handoff)
      → (execute_agent_handoff now ctx c h).1 ≡ c
  unfolding execute_agent_handoff
  handoff-slots now ctx none h =
      conclude-none now (given_context ctx) h (admit (given_context ctx) none) refl
  handoff-slots now ctx (some c) h =
      conclude-slots now (given_context ctx) h c (admit (given_context ctx) (some c)) refl
