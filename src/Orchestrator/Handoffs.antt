-- ===== src/Orchestrator/Handoffs.antt =====
-- What a handoff returns.
use mathlib.Core.Path.{subst}
use veraxis_memory_admissibi.Prelude.{◌≡◌, refl, sym, ap, ◌∙◌, true, Option, some, List}
use veraxis_memory_admissibi.Prelude.Bytes.{zeros}
use veraxis_memory_admissibi.Prelude.Result.{Result, ok, err, >>=-ok_elim, reject-ok_elim}
use veraxis_memory_admissibi.Prelude.Time.{Time, hour, unix}
use veraxis_memory_admissibi.Platform.{Platform, IsGenerated}
use veraxis_memory_admissibi.Merkle.{LeafRecord}
use veraxis_memory_admissibi.SessionMap.{SessionMap, sign_session_map}
use veraxis_memory_admissibi.SessionMap.Generate.{generate-ok}
use veraxis_memory_admissibi.Audit.{verify_session_map}
use veraxis_memory_admissibi.Audit.Verify.{accepted, verify-generate}
use veraxis_memory_admissibi.Audit.Lineage.{verify_lineage_record, verify_lineage-compiled}
use veraxis_memory_admissibi.Gateway.{
  ClientWrapper, ProfileCache, sanitize_bindings, sanitize_context_window,
}
use veraxis_memory_admissibi.Gateway.Inference.{snapshot_info}
use veraxis_memory_admissibi.Gateway.Inference.Types.{Context, Provider, given_context, after_looks}
use veraxis_memory_admissibi.Gateway.Inference.Turns.{sanitize_context_window-ok_elim}
use veraxis_memory_admissibi.Orchestrator.{
  admit, wrap, turn_of, handoff_block, generate_handoff_session_map, run_handoff, conclude_handoff,
  execute_agent_handoff,
}
use veraxis_memory_admissibi.Orchestrator.Types.{
  HandoffCoordinator, HandoffError, HandoffResult, Handoff, scrubbing_fault, invocation_failure,
  evidence_error, lineage_failure,
}
use veraxis_memory_admissibi.Orchestrator.Admission.{acquire-some, admit-ok}

pub ok_inj :
    {r s : HandoffResult} → ◌≡◌ {A = Result HandoffError HandoffResult} (ok r) (ok s) → r ≡ s
ok_inj e = cc

pub wrap-ok {ℓ} :
    {E : Type 0} {A : Type ℓ} (f : E → HandoffError) (m : Result E A) (a : A)
    → wrap f m ≡ ok a
    → m ≡ ok a
wrap-ok f (ok b) a h = cc
wrap-ok f (err e) a h = absurd (cc)

module _ ⦃p : Platform⦄ where
  -- A result with a window, a session map and a token that fit together: the window is the sanitised
  -- scratchpad, its leaf records are those of the session map, which verifies under the coordinator's
  -- key, and the consequence token verifies against the session map.
  pub record Evident (c : HandoffCoordinator) (w : ClientWrapper) (cache : ProfileCache)
      (h : Handoff) (r : HandoffResult) : Type 0 where
    pub window :
        r.sanitized_payload ≡ (sanitize_bindings w cache (turn_of h) h.raw_scratchpad h.bindings).0
    pub leaves :
        r.inference_block.session_map.leaf_records
        ≡ (sanitize_bindings w cache (turn_of h) h.raw_scratchpad h.bindings).1
    pub map_verified :
        verify_session_map (p.ed25519_public c.signing_key) r.inference_block.session_map
        ≡ ok accepted
    pub token_verified :
        verify_lineage_record r.consequence_token r.inference_block.session_map ≡ true

  handoff_map-verified :
      (c : HandoffCoordinator) (w : ClientWrapper) (h : Handoff) (leaves : List LeafRecord)
      (now : Time) (s : SessionMap)
      → IsGenerated c.signing_key
      → generate_handoff_session_map h.map_id h.session_id h.target.agent_id h.actor_id h.task_id
          h.target.tenant_hash w.policy_hash
          (snapshot_info w).0
          (snapshot_info w).1
          leaves
          c.signing_key
          c.audit_key_id
          hour
          now
        ≡ ok s
      → (verify_session_map (p.ed25519_public c.signing_key) s ≡ ok accepted)
        × (s.leaf_records ≡ leaves)
  unfolding generate_handoff_session_map sign_session_map
  handoff_map-verified c w h leaves now s generated made = (
    verify-generate h.map_id h.session_id h.target.agent_id h.actor_id h.task_id
        h.target.tenant_hash (zeros 32) w.policy_hash (snapshot_info w).0 (snapshot_info w).1 leaves
        c.signing_key c.audit_key_id hour now s generated made,
    ap (λ t. t.leaf_records)
        (generate-ok h.map_id h.session_id h.target.agent_id h.actor_id h.task_id
          h.target.tenant_hash (zeros 32) w.policy_hash (snapshot_info w).0 (snapshot_info w).1
          leaves c.signing_key c.audit_key_id hour now s made).1,
  )

  run_handoff-Evident :
      (now : Time) (ctx : Context) (c : HandoffCoordinator) (w : ClientWrapper)
      (cache : ProfileCache) (provider : Provider) (h : Handoff) (r : HandoffResult)
      → w.profiles ≡ some cache
      → IsGenerated c.signing_key
      → run_handoff now ctx c w provider h ≡ ok r
      → Evident c w cache h r
  unfolding run_handoff handoff_block
  run_handoff-Evident now ctx c w cache provider h r profiled generated e =
      let sanitizing =
        sanitize_context_window (ctx 2) (some w) (turn_of h) h.raw_scratchpad h.bindings in
      reject-ok_elim (ctx 1) _ _ e λ _ e₁.
        >>=-ok_elim (wrap scrubbing_fault sanitizing) _ e₁ λ x sanitized e₂.
          >>=-ok_elim (wrap invocation_failure (provider (after_looks 3 ctx) x.0)) _ e₂
            λ response answered e₃. >>=-ok_elim (wrap evidence_error _) _ e₃ λ s made e₄.
              >>=-ok_elim (wrap lineage_failure _) _ e₄ λ mcr linked e₅.
                let window =
                  sanitize_context_window-ok_elim (ctx 2) w cache (turn_of h) h.raw_scratchpad
                    h.bindings x profiled (wrap-ok scrubbing_fault sanitizing x sanitized) in
                let (verified, same) =
                  handoff_map-verified c w h x.1 now s generated
                    (wrap-ok evidence_error _ s made) in
                let token =
                  verify_lineage-compiled h.mcr_id s h.eep_id h.aep_id (unix now) mcr
                    (wrap-ok lineage_failure _ mcr linked) in
                subst (Evident c w cache h) (ok_inj e₅) (record {
                  window = ap (λ y. y.0) window;
                  leaves = same ∙ ap (λ y. y.1) window;
                  map_verified = verified;
                  token_verified = token;
                })

  conclude-Evident :
      (now : Time) (ctx : Context) (h : Handoff) (c : HandoffCoordinator) (w : ClientWrapper)
      (cache : ProfileCache) (r : HandoffResult)
      (m : Result HandoffError (HandoffCoordinator × ClientWrapper × Provider))
      → c.gateway_wrapper ≡ some w
      → w.profiles ≡ some cache
      → IsGenerated c.signing_key
      → admit ctx (some c) ≡ m
      → (conclude_handoff now ctx h (some c) m).0 ≡ ok r
      → Evident c w cache h r
  unfolding conclude_handoff
  conclude-Evident now ctx h c w cache r (err e) wrapped profiled generated made done = absurd (cc)
  conclude-Evident now ctx h c w cache r (ok (held, w₁, provider)) wrapped profiled generated made
        done =
      let (got, wrapped₁, _) = admit-ok ctx c held w₁ provider made in
      let same_key = ap (λ d. d.signing_key) (acquire-some c held got).1 in
      let same_wrapper : w₁ ≡ w = cc in
      let evident =
        run_handoff-Evident now ctx held w₁ cache provider h r (cc)
          (subst IsGenerated same_key generated) done in
      let on_w = subst (λ v. Evident held v cache h r) same_wrapper evident in
      record {
        window = on_w.window;
        leaves = on_w.leaves;
        map_verified =
            subst
              (λ k.
                verify_session_map (p.ed25519_public k) r.inference_block.session_map ≡ ok accepted)
              (sym same_key) on_w.map_verified;
        token_verified = on_w.token_verified;
      }

  -- When a handoff of a coordinator whose key ed25519 generated succeeds, its payload is the sanitised
  -- scratchpad, the leaf records of its session map are those of the scratchpad's bindings,
  -- verification accepts the session map under the public key of the coordinator's key, and the
  -- consequence token verifies against the session map.
  pub handoff-Evident :
      (now : Time) (ctx : Option Context) (c : HandoffCoordinator) (w : ClientWrapper)
      (cache : ProfileCache) (h : Handoff) (r : HandoffResult)
      → c.gateway_wrapper ≡ some w
      → w.profiles ≡ some cache
      → IsGenerated c.signing_key
      → (execute_agent_handoff now ctx (some c) h).0 ≡ ok r
      → Evident c w cache h r
  unfolding execute_agent_handoff
  handoff-Evident now ctx c w cache h r wrapped profiled generated done =
      conclude-Evident now (given_context ctx) h c w cache r (admit (given_context ctx) (some c))
        wrapped profiled generated refl done
