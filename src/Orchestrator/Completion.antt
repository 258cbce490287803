-- ===== src/Orchestrator/Completion.antt =====
-- When a handoff succeeds.
use veraxis_memory_admissibi.Prelude.{
  ◌+◌, ◌≡◌, ◌≢◌, refl, ap, ◌∙◌, true, false, some, List, [], length, ltb, Bool-cases, inl, inr,
}
use veraxis_memory_admissibi.Prelude.Bytes.{Bytes, GoString, bytes_eq, bytes_eq_iff, zeros}
use veraxis_memory_admissibi.Prelude.Int.{ℤ}
use veraxis_memory_admissibi.Prelude.Result.{ok}
use veraxis_memory_admissibi.Prelude.Time.{Time, hour, unix}
use veraxis_memory_admissibi.Platform.{Platform}
use veraxis_memory_admissibi.Merkle.{LeafRecord}
use veraxis_memory_admissibi.SessionMap.{SessionMap, is_empty}
use veraxis_memory_admissibi.SessionMap.Generate.{generated, generate_complete}
use veraxis_memory_admissibi.Audit.Lineage.{linked, compile_lineage_record}
use veraxis_memory_admissibi.Gateway.{ClientWrapper, ProfileCache, sanitize_bindings}
use veraxis_memory_admissibi.Gateway.Inference.{snapshot_info}
use veraxis_memory_admissibi.Gateway.Inference.Types.{
  Context, Provider, ProviderResponse, after_looks,
}
use veraxis_memory_admissibi.Gateway.Inference.Turns.{sanitize_context_window-ok}
use veraxis_memory_admissibi.Gateway.Inference.Completion.{some_leaf}
use veraxis_memory_admissibi.Orchestrator.{
  current_model, admitted, turn_of, acquire, generate_handoff_session_map, handoff_block,
  run_handoff, conclude_handoff, execute_agent_handoff,
}
use veraxis_memory_admissibi.Orchestrator.Types.{HandoffCoordinator, Handoff, HandoffResult}
use veraxis_memory_admissibi.Orchestrator.Freed.{admit-acquire}

not_empty : (s : GoString) → s ≢ [] → bytes_eq s [] ≡ false
not_empty s h = elim (Bool-cases (bytes_eq s [])) [
  | inl same ↦ absurd (h ((bytes_eq_iff s []).0 same))
  | inr other ↦ other
]

module _ ⦃p : Platform⦄ where
  abbrev pub handoff_map :
      Time → HandoffCoordinator → ClientWrapper → Handoff → List LeafRecord → SessionMap
  handoff_map now c w h leaves =
      generated h.map_id h.session_id h.target.agent_id h.actor_id h.task_id h.target.tenant_hash
        (zeros 32) w.policy_hash (snapshot_info w).0 (snapshot_info w).1 leaves c.signing_key
        c.audit_key_id hour now

  handoff_map_complete :
      (now : Time) (c : HandoffCoordinator) (w : ClientWrapper) (h : Handoff)
      (leaves : List LeafRecord)
      → is_empty leaves ≡ false
      → length c.signing_key ≡ 64
      → generate_handoff_session_map h.map_id h.session_id h.target.agent_id h.actor_id h.task_id
          h.target.tenant_hash w.policy_hash
          (snapshot_info w).0
          (snapshot_info w).1
          leaves
          c.signing_key
          c.audit_key_id
          hour
          now
        ≡ ok (handoff_map now c w h leaves)
  unfolding generate_handoff_session_map
  handoff_map_complete now c w h leaves found sized =
      generate_complete h.map_id h.session_id h.target.agent_id h.actor_id h.task_id
        h.target.tenant_hash (zeros 32) w.policy_hash (snapshot_info w).0 (snapshot_info w).1 leaves
        c.signing_key c.audit_key_id hour now found sized refl

  lineage_complete :
      (mcr_id : Bytes) (s : SessionMap) (eep aep : GoString) (linked_at : ℤ)
      → eep ≢ []
      → aep ≢ []
      → compile_lineage_record mcr_id s eep aep linked_at ≡ ok (linked mcr_id s eep aep linked_at)
  unfolding compile_lineage_record
  lineage_complete mcr_id s eep aep linked_at some_eep some_aep =
      rw (not_empty eep some_eep, not_empty aep some_aep) refl

  -- The result of a handoff whose provider answers with `response`.
  abbrev pub handoff_result :
      Time
      → HandoffCoordinator
      → ClientWrapper
      → ProfileCache
      → Handoff
      → ProviderResponse
      → HandoffResult
  handoff_result now c w cache h response =
      let (window, leaves) = sanitize_bindings w cache (turn_of h) h.raw_scratchpad h.bindings in
      let s = handoff_map now c w h leaves in
      record {
        sanitized_payload = window;
        inference_block = handoff_block now c h response s;
        consequence_token = linked h.mcr_id s h.eep_id h.aep_id (unix now);
      }

  run_handoff_completes :
      (now : Time) (ctx : Context) (c : HandoffCoordinator) (w : ClientWrapper)
      (cache : ProfileCache) (provider : Provider) (h : Handoff) (response : ProviderResponse)
      → ctx 1 ≡ false
      → ctx 2 ≡ false
      → w.profiles ≡ some cache
      → length c.signing_key ≡ 64
      → h.bindings ≢ []
      → h.eep_id ≢ []
      → h.aep_id ≢ []
      → provider
          (after_looks 3 ctx)
          (sanitize_bindings w cache (turn_of h) h.raw_scratchpad h.bindings).0
        ≡ ok response
      → run_handoff now ctx c w provider h ≡ ok (handoff_result now c w cache h response)
  unfolding run_handoff
  run_handoff_completes now ctx c w cache provider h response live₁ live₂ profiled sized bound
        some_eep some_aep answered =
      let leaves = (sanitize_bindings w cache (turn_of h) h.raw_scratchpad h.bindings).1 in
      let s = handoff_map now c w h leaves in
      simp
        (
          live₁,
          live₂,
          sanitize_context_window-ok w cache (turn_of h) h.raw_scratchpad h.bindings profiled,
          answered,
          handoff_map_complete now c w h leaves
              (some_leaf w cache (turn_of h) h.raw_scratchpad h.bindings bound) sized,
          lineage_complete h.mcr_id s h.eep_id h.aep_id (unix now) some_eep some_aep,
        )
        refl

  -- A handoff to a coordinator with a free slot, a wrapper with a profile cache, a provider and a key
  -- of 64 bytes succeeds, when its context stays open, it has bindings and both trackers, and the
  -- provider answers the sanitised scratchpad; its result is that of the answer.
  pub handoff_completes :
      (now : Time) (ctx : Context) (c : HandoffCoordinator) (w : ClientWrapper)
      (cache : ProfileCache) (provider : Provider) (h : Handoff) (response : ProviderResponse)
      → ctx 0 ≡ false
      → ctx 1 ≡ false
      → ctx 2 ≡ false
      → c.gateway_wrapper ≡ some w
      → c.provider ≡ some provider
      → w.profiles ≡ some cache
      → length c.signing_key ≡ 64
      → ltb c.in_flight c.capacity ≡ true
      → h.bindings ≢ []
      → h.eep_id ≢ []
      → h.aep_id ≢ []
      → provider
          (after_looks 3 ctx)
          (sanitize_bindings w cache (turn_of h) h.raw_scratchpad h.bindings).0
        ≡ ok response
      → (execute_agent_handoff now (some ctx) (some c) h).0
        ≡ ok (handoff_result now c w cache h response)
  unfolding execute_agent_handoff conclude_handoff acquire handoff_block current_model
  handoff_completes now ctx c w cache provider h response live₀ live₁ live₂ wrapped served profiled
        sized free bound some_eep some_aep answered =
      let held : HandoffCoordinator = record c { in_flight = c.in_flight + 1 } in
      let got : acquire c ≡ some held = simp (free) refl in
      let run =
        run_handoff_completes now ctx held w cache provider h response live₁ live₂ profiled sized
          bound some_eep some_aep answered in
      ap (λ m. (conclude_handoff now ctx h (some c) m).0)
        (admit-acquire ctx c w provider live₀ wrapped served sized ∙ ap (admitted w provider) got)
      ∙ run
