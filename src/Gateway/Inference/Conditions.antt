-- ===== src/Gateway/Inference/Conditions.antt =====
-- What held of a turn that came to its end.
use veraxis_memory_admissibi.Prelude.{
  ◌==◌, ==_iff, ◌≡◌, ◌≢◌, refl, ap, ◌∙◌, true, false, inl, inr, some, List, [], ◌∷◌, length,
  Bool-cases,
}
use veraxis_memory_admissibi.Prelude.Result.{Result, ok, err}
use veraxis_memory_admissibi.Prelude.Time.{Time}
use veraxis_memory_admissibi.Platform.{Platform}
use veraxis_memory_admissibi.Merkle.{LeafRecord}
use veraxis_memory_admissibi.SessionMap.{SessionMap, SessionMapError, is_empty}
use veraxis_memory_admissibi.SessionMap.Generate.{generate-ok}
use veraxis_memory_admissibi.Gateway.{
  LlmMessage, MemoryContextBinding, ClientWrapper, ProfileCache, Turn, sanitize_bindings,
  sanitize_context_window, context_error,
}
use veraxis_memory_admissibi.Gateway.Adapters.{OpenAiRequestPayload}
use veraxis_memory_admissibi.Gateway.Inference.{
  with_defaults, policy_in_force, snapshot_info, context_of, turn_of, execute_admissible_turn,
  run_turn, convert_turn, answer_turn, seal_turn, turn_session_map,
}
use veraxis_memory_admissibi.Gateway.Inference.Types.{
  AdmissibleInferenceBlock, MockRuntimeContext, ProviderResponse, ProviderError, Provider,
  OpenAiAdapter, after_looks,
}
use veraxis_memory_admissibi.Gateway.Inference.Turns.{sanitize_context_window-ok}

module _ ⦃p : Platform⦄ where
  no_leaf :
      (w : ClientWrapper) (cache : ProfileCache) (t : Turn) (messages : List LlmMessage)
      (bindings : List MemoryContextBinding)
      → is_empty (sanitize_bindings w cache t messages bindings).1 ≡ false
      → bindings ≢ []
  unfolding sanitize_bindings
  no_leaf w cache t messages [] h = absurd (cc)
  no_leaf w cache t messages (b ∷ bs) h = λ e. cc

  done_window :
      (w : ClientWrapper) (t : Turn) (messages : List LlmMessage)
      (bindings : List MemoryContextBinding)
      → sanitize_context_window true (some w) t messages bindings ≡ err context_error
  unfolding sanitize_context_window
  done_window w t messages bindings = refl

  turn_session_map-leaf :
      (w : ClientWrapper) (r : MockRuntimeContext) (leaves : List LeafRecord) (s : SessionMap)
      → turn_session_map w r leaves ≡ ok s
      → is_empty leaves ≡ false
  unfolding turn_session_map
  turn_session_map-leaf w r leaves s made =
      (generate-ok r.map_id r.session_id r.agent_id r.actor_id r.task_id r.tenant r.context_hash
        (policy_in_force w r.policy_snapshot_hash) (snapshot_info w).0 (snapshot_info w).1 leaves
        r.private_key r.key_id r.ttl r.now s made).0

  -- The block has the provider's response.
  abbrev HasResponse : AdmissibleInferenceBlock → ProviderResponse → Type 0
  HasResponse block response =
      (block.response_text ≡ response.response) × (block.usage_tokens ≡ response.tokens)

  seal_turn-HasResponse :
      (later : Time) (a : OpenAiAdapter) (r : MockRuntimeContext) (payload : OpenAiRequestPayload)
      (response : ProviderResponse) (made : Result SessionMapError SessionMap)
      (block : AdmissibleInferenceBlock)
      → (seal_turn later a r payload response made).0 ≡ ok block
      → HasResponse block response × (made ≡ ok block.session_map)
  unfolding seal_turn
  seal_turn-HasResponse later a r payload response (err e) block h = absurd (cc)
  seal_turn-HasResponse later a r payload response (ok s) block h = ((cc, cc), cc)

  answer_turn-HasResponse :
      (later : Time) (w : ClientWrapper) (a : OpenAiAdapter) (r : MockRuntimeContext)
      (payload : OpenAiRequestPayload) (leaves : List LeafRecord)
      (answer : Result ProviderError ProviderResponse) (block : AdmissibleInferenceBlock)
      → (answer_turn later w a r payload leaves answer).0 ≡ ok block
      → (is_empty leaves ≡ false)
        × ((response : ProviderResponse) × (answer ≡ ok response) × HasResponse block response)
  unfolding answer_turn
  answer_turn-HasResponse later w a r payload leaves (err e) block h = absurd (cc)
  answer_turn-HasResponse later w a r payload leaves (ok response) block h =
      let (has, made) =
        seal_turn-HasResponse later a r payload response (turn_session_map w r leaves) block h in
      (turn_session_map-leaf w r leaves block.session_map made, (response, refl, has))

  same_response :
      (block : AdmissibleInferenceBlock) (x y : ProviderResponse)
      → HasResponse block x
      → HasResponse block y
      → x ≡ y
  same_response block x y (text_x, tokens_x) (text_y, tokens_y) = cc

  -- The key of a turn that returned a block had 64 bytes, its context was not done, it had a binding,
  -- and the provider answered with the response that the block has.
  pub execute-HasResponse :
      (clock later : Time) (w : ClientWrapper) (a : OpenAiAdapter) (provider : Provider)
      (cache : ProfileCache) (r : MockRuntimeContext) (messages : List LlmMessage)
      (bindings : List MemoryContextBinding) (response : ProviderResponse)
      (block : AdmissibleInferenceBlock)
      → w.profiles ≡ some cache
      → (execute_admissible_turn clock later
          (some (record { wrapper = some w; adapter = some a; provider = some provider }))
          messages
          bindings
          r).0
        ≡ ok block
      → block.response_text ≡ response.response
      → block.usage_tokens ≡ response.tokens
      → (length r.private_key ≡ 64)
        × (context_of r 0 ≡ false)
        × (bindings ≢ [])
        × (provider
              (after_looks 1 (context_of r))
              (sanitize_bindings w cache (turn_of r) messages bindings).0
            ≡ ok response)
  unfolding execute_admissible_turn run_turn convert_turn with_defaults
  execute-HasResponse clock later w a provider cache r messages bindings response block profiled h
        text tokens =
      elim (Bool-cases (length r.private_key == 64)) [
        | inr bad ↦ let stopped = rw bad at h in absurd (cc)
        | inl sized ↦ elim (Bool-cases (context_of r 0)) [
          | inl done ↦
              let stopped = rw (sized, done, done_window w (turn_of r) messages bindings) at h in
              absurd (cc)
          | inr live ↦
              let window =
                sanitize_context_window-ok w cache (turn_of r) messages bindings profiled in
              let (leaf, answer) =
                answer_turn-HasResponse later w a (with_defaults clock r) _ _ _ block
                  (rw (sized, live, window) at h) in
              let (given, answered, has) = answer in
              (
                (==_iff _ 64).0 sized,
                live,
                no_leaf w cache (turn_of r) messages bindings leaf,
                answered ∙ ap ok (same_response block given response has (text, tokens)),
              )
        ]
      ]
