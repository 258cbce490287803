-- ===== src/Gateway/Inference/Completion.antt =====
-- When a turn comes to its end.
use veraxis_memory_admissibi.Prelude.{
  ◌==◌, ==_iff, ◌≡◌, ◌≢◌, refl, false, true, some, List, [], ◌∷◌, length, arith, if◌then◌else◌,
}
use veraxis_memory_admissibi.Prelude.Int.{pos, leb_ℤ}
use veraxis_memory_admissibi.Prelude.Bytes.{text}
use veraxis_memory_admissibi.Prelude.Result.{ok}
use veraxis_memory_admissibi.Prelude.Time.{Time, Duration, hour, is_zero}
use veraxis_memory_admissibi.Platform.{Platform}
use veraxis_memory_admissibi.Merkle.{LeafRecord}
use veraxis_memory_admissibi.SessionMap.{SessionMap, is_empty}
use veraxis_memory_admissibi.SessionMap.Generate.{generated, generate_complete}
use veraxis_memory_admissibi.Gateway.{
  LlmMessage, MemoryContextBinding, ClientWrapper, ProfileCache, Turn, sanitize_bindings,
}
use veraxis_memory_admissibi.Gateway.Adapters.{open_ai_convert}
use veraxis_memory_admissibi.Gateway.Inference.{
  with_defaults, policy_in_force, snapshot_info, context_of, turn_of, execute_admissible_turn,
  run_turn, convert_turn, answer_turn, seal_turn, turn_session_map,
}
use veraxis_memory_admissibi.Gateway.Inference.Types.{
  MockRuntimeContext, ProviderResponse, Provider, OpenAiAdapter, after_looks,
}
use veraxis_memory_admissibi.Gateway.Inference.Turns.{sanitize_context_window-ok}

positive_ttl : (ttl : Duration) → leb_ℤ (if leb_ℤ ttl (pos 0) then hour else ttl) (pos 0) ≡ false
positive_ttl ttl = ground arith

module _ ⦃p : Platform⦄ where
  pub some_leaf :
      (w : ClientWrapper) (cache : ProfileCache) (t : Turn) (messages : List LlmMessage)
      (bindings : List MemoryContextBinding)
      → bindings ≢ []
      → is_empty (sanitize_bindings w cache t messages bindings).1 ≡ false
  unfolding sanitize_bindings
  some_leaf w cache t messages [] h = absurd (h refl)
  some_leaf w cache t messages (b ∷ bs) h = ground arith

  -- The session map of a turn with the leaf records `leaves`.
  abbrev pub turn_map : ClientWrapper → MockRuntimeContext → List LeafRecord → SessionMap
  turn_map w r leaves =
      generated r.map_id r.session_id r.agent_id r.actor_id r.task_id r.tenant r.context_hash
        (policy_in_force w r.policy_snapshot_hash) (snapshot_info w).0 (snapshot_info w).1 leaves
        r.private_key r.key_id r.ttl r.now

  turn_session_map_complete :
      (w : ClientWrapper) (r : MockRuntimeContext) (leaves : List LeafRecord)
      → is_empty leaves ≡ false
      → length r.private_key ≡ 64
      → leb_ℤ r.ttl (pos 0) ≡ false
      → turn_session_map w r leaves ≡ ok (turn_map w r leaves)
  unfolding turn_session_map
  turn_session_map_complete w r leaves found sized positive =
      generate_complete r.map_id r.session_id r.agent_id r.actor_id r.task_id r.tenant
        r.context_hash (policy_in_force w r.policy_snapshot_hash) (snapshot_info w).0
        (snapshot_info w).1 leaves r.private_key r.key_id r.ttl r.now found sized positive

  -- A turn with a key of 64 bytes, a context that is not done, a profile cache and at least one
  -- binding, whose provider answers the sanitised window, returns a block with that answer and the
  -- generated session map of the window's leaf records, and the payload of the window.
  pub execute_completes :
      (clock later : Time) (w : ClientWrapper) (a : OpenAiAdapter) (provider : Provider)
      (cache : ProfileCache) (r : MockRuntimeContext) (messages : List LlmMessage)
      (bindings : List MemoryContextBinding) (response : ProviderResponse)
      → length r.private_key ≡ 64
      → context_of r 0 ≡ false
      → w.profiles ≡ some cache
      → bindings ≢ []
      → provider
          (after_looks 1 (context_of r))
          (sanitize_bindings w cache (turn_of r) messages bindings).0
        ≡ ok response
      → execute_admissible_turn clock later
          (some (record { wrapper = some w; adapter = some a; provider = some provider }))
          messages
          bindings
          r
        ≡ (
          ok (record {
            inference_id = text "inf_local_0001";
            model_name = a.adapter_model;
            response_text = response.response;
            usage_tokens = response.tokens;
            session_map =
                turn_map w
                  (with_defaults clock r)
                  (sanitize_bindings w cache (turn_of r) messages bindings).1;
            completed_at =
                if is_zero (with_defaults clock r).now then later else (with_defaults clock r).now;
          }),
          open_ai_convert a.adapter_model
              (sanitize_bindings w cache (turn_of r) messages bindings).0,
        )
  unfolding execute_admissible_turn run_turn convert_turn answer_turn seal_turn with_defaults
  execute_completes clock later w a provider cache r messages bindings response sized live profiled
        bound answered =
      let full = with_defaults clock r in
      let sized_test : (length r.private_key == 64) ≡ true = (==_iff _ 64).1 sized in
      let window = sanitize_context_window-ok w cache (turn_of r) messages bindings profiled in
      let made =
        turn_session_map_complete w full (sanitize_bindings w cache (turn_of r) messages bindings).1
          (some_leaf w cache (turn_of r) messages bindings bound) sized (positive_ttl r.ttl) in
      rw (sized_test, live, window, answered, made) refl
