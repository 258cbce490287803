-- ===== src/Orchestrator/Results.antt =====
-- Which result a handoff returns.
use mathlib.Core.Path.{subst}
use veraxis_memory_admissibi.Prelude.{◌≡◌, refl, sym, ap, ◌∙◌, Option, some, List}
use veraxis_memory_admissibi.Prelude.Bytes.{zeros}
use veraxis_memory_admissibi.Prelude.Result.{Result, ok, err, >>=-ok_elim, reject-ok_elim}
use veraxis_memory_admissibi.Prelude.Time.{Time, hour, unix}
use veraxis_memory_admissibi.Platform.{Platform}
use veraxis_memory_admissibi.Merkle.{LeafRecord}
use veraxis_memory_admissibi.SessionMap.{SessionMap}
use veraxis_memory_admissibi.SessionMap.Generate.{generate-ok}
use veraxis_memory_admissibi.Audit.Lineage.{
  MachineConsequenceRecord, linked, compile_lineage_record_iff,
}
use veraxis_memory_admissibi.Gateway.{
  LlmMessage, ClientWrapper, ProfileCache, sanitize_bindings, sanitize_context_window,
}
use veraxis_memory_admissibi.Gateway.Inference.{snapshot_info}
use veraxis_memory_admissibi.Gateway.Inference.Types.{
  Context, Provider, ProviderResponse, given_context, after_looks,
}
use veraxis_memory_admissibi.Gateway.Inference.Turns.{sanitize_context_window-ok_elim}
use veraxis_memory_admissibi.Orchestrator.{
  current_model, admit, wrap, turn_of, handoff_block, generate_handoff_session_map, run_handoff,
  conclude_handoff, execute_agent_handoff,
}
use veraxis_memory_admissibi.Orchestrator.Types.{
  HandoffCoordinator, HandoffError, HandoffResult, Handoff, scrubbing_fault, invocation_failure,
  evidence_error, lineage_failure,
}
use veraxis_memory_admissibi.Orchestrator.Admission.{acquire-some, admit-ok}
use veraxis_memory_admissibi.Orchestrator.Handoffs.{wrap-ok, ok_inj}
use veraxis_memory_admissibi.Orchestrator.Completion.{handoff_map, handoff_result}

module _ ⦃p : Platform⦄ where
  handoff_map-ok :
      (now : Time) (c : HandoffCoordinator) (w : ClientWrapper) (h : Handoff)
      (leaves : List LeafRecord) (s : SessionMap)
      → generate_handoff_session_map h.map_id h.session_id h.target.agent_id h.actor_id h.task_id
          h.target.tenant_hash w.policy_hash
          (snapshot_info w).0
          (snapshot_info w).1
          leaves
          c.signing_key
          c.audit_key_id
          hour
          now
        ≡ ok s
      → s ≡ handoff_map now c w h leaves
  unfolding generate_handoff_session_map
  handoff_map-ok now c w h leaves s made =
      (generate-ok h.map_id h.session_id h.target.agent_id h.actor_id h.task_id h.target.tenant_hash
        (zeros 32) w.policy_hash (snapshot_info w).0 (snapshot_info w).1 leaves c.signing_key
        c.audit_key_id hour now s made).1

  -- The provider answered the sanitised scratchpad, and the result is that of its answer.
  abbrev pub Answered :
      Time
      → Context
      → HandoffCoordinator
      → ClientWrapper
      → ProfileCache
      → Provider
      → Handoff
      → HandoffResult
      → Type 0
  Answered now ctx c w cache provider h r =
      (response : ProviderResponse) × (provider (after_looks 3 ctx)
          (sanitize_bindings w cache (turn_of h) h.raw_scratchpad h.bindings).0
        ≡ ok response)
      × (r ≡ handoff_result now c w cache h response)

  -- The result with this window, session map and token; and with the token of the session map.
  abbrev assembled :
      Time
      → HandoffCoordinator
      → Handoff
      → ProviderResponse
      → List LlmMessage
      → SessionMap
      → MachineConsequenceRecord
      → HandoffResult
  assembled now c h response window s token = record {
    sanitized_payload = window;
    inference_block = handoff_block now c h response s;
    consequence_token = token;
  }

  abbrev sealed_with :
      Time
      → HandoffCoordinator
      → Handoff
      → ProviderResponse
      → List LlmMessage
      → SessionMap
      → HandoffResult
  sealed_with now c h response window s =
      assembled now c h response window s (linked h.mcr_id s h.eep_id h.aep_id (unix now))

  run_handoff-Answered :
      (now : Time) (ctx : Context) (c : HandoffCoordinator) (w : ClientWrapper)
      (cache : ProfileCache) (provider : Provider) (h : Handoff) (r : HandoffResult)
      → w.profiles ≡ some cache
      → run_handoff now ctx c w provider h ≡ ok r
      → Answered now ctx c w cache provider h r
  unfolding run_handoff
  run_handoff-Answered now ctx c w cache provider h r profiled e =
      let sanitizing =
        sanitize_context_window (ctx 2) (some w) (turn_of h) h.raw_scratchpad h.bindings in
      reject-ok_elim (ctx 1) _ _ e λ _ e₁.
        >>=-ok_elim (wrap scrubbing_fault sanitizing) _ e₁ λ x sanitized e₂.
          >>=-ok_elim (wrap invocation_failure (provider (after_looks 3 ctx) x.0)) _ e₂
            λ response answered e₃. >>=-ok_elim (wrap evidence_error _) _ e₃ λ s made e₄.
              >>=-ok_elim (wrap lineage_failure _) _ e₄ λ mcr sealed e₅.
                let window =
                  sanitize_context_window-ok_elim (ctx 2) w cache (turn_of h) h.raw_scratchpad
                    h.bindings x profiled (wrap-ok scrubbing_fault sanitizing x sanitized) in
                let map_made = handoff_map-ok now c w h x.1 s (wrap-ok evidence_error _ s made) in
                let (_, _, token) =
                  (compile_lineage_record_iff h.mcr_id s h.eep_id h.aep_id (unix now) mcr).0
                    (wrap-ok lineage_failure _ mcr sealed) in
                (
                  response,
                  subst (λ y. provider (after_looks 3 ctx) y.0 ≡ ok response) window
                      (wrap-ok invocation_failure _ response answered),
                  sym (ok_inj e₅)
                      ∙ (ap (λ t. assembled now c h response x.0 s t) (sym token)
                          ∙ (ap (λ t. sealed_with now c h response x.0 t) map_made
                              ∙ ap
                                  (λ y.
                                    sealed_with now c h response y.0 (handoff_map now c w h y.1))
                                  window)),
                )

  conclude-Answered :
      (now : Time) (ctx : Context) (h : Handoff) (c : HandoffCoordinator) (w : ClientWrapper)
      (cache : ProfileCache) (provider : Provider) (r : HandoffResult)
      (m : Result HandoffError (HandoffCoordinator × ClientWrapper × Provider))
      → c.gateway_wrapper ≡ some w
      → c.provider ≡ some provider
      → w.profiles ≡ some cache
      → admit ctx (some c) ≡ m
      → (conclude_handoff now ctx h (some c) m).0 ≡ ok r
      → Answered now ctx c w cache provider h r
  unfolding conclude_handoff handoff_block current_model
  conclude-Answered now ctx h c w cache provider r (err e) wrapped served profiled made done =
      absurd (cc)
  conclude-Answered now ctx h c w cache provider r (ok (held, w₁, p₁)) wrapped served profiled made
        done =
      let (got, wrapped₁, served₁) = admit-ok ctx c held w₁ p₁ made in
      let same_wrapper : w₁ ≡ w = cc in
      let same_provider : p₁ ≡ provider = cc in
      let ran = run_handoff-Answered now ctx held w₁ cache p₁ h r (cc) done in
      let on_wrapper = subst (λ v. Answered now ctx held v cache p₁ h r) same_wrapper ran in
      let on_provider = subst (λ q. Answered now ctx held w cache q h r) same_provider on_wrapper in
      subst (λ d. Answered now ctx d w cache provider h r) (sym (acquire-some c held got).1)
        on_provider

  -- When a handoff succeeds, its provider answered the sanitised scratchpad, and the result is the one
  -- of this answer: its window, its session map and its token are determined.
  pub handoff-Answered :
      (now : Time) (ctx : Option Context) (c : HandoffCoordinator) (w : ClientWrapper)
      (cache : ProfileCache) (provider : Provider) (h : Handoff) (r : HandoffResult)
      → c.gateway_wrapper ≡ some w
      → c.provider ≡ some provider
      → w.profiles ≡ some cache
      → (execute_agent_handoff now ctx (some c) h).0 ≡ ok r
      → Answered now (given_context ctx) c w cache provider h r
  unfolding execute_agent_handoff
  handoff-Answered now ctx c w cache provider h r wrapped served profiled done =
      conclude-Answered now (given_context ctx) h c w cache provider r
        (admit (given_context ctx) (some c)) wrapped served profiled refl done
