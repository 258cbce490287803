-- ===== src/Gateway/Inference/Turns.antt =====
-- What a turn sends to the provider and what it returns.
use veraxis_memory_admissibi.Prelude.{
  ℕ, ◌==◌, ◌≡◌, refl, sym, ap, ◌∙◌, Bool, true, false, not, some, List, ◌∷◌, ◌++◌, length,
  if◌then◌else◌, Bool-cases, inl, inr,
}
use veraxis_memory_admissibi.Prelude.Int.{pos}
use veraxis_memory_admissibi.Prelude.Result.{Result, ok, err}
use veraxis_memory_admissibi.Prelude.Time.{Time}
use veraxis_memory_admissibi.Platform.{Platform, IsGenerated}
use veraxis_memory_admissibi.Merkle.{LeafRecord}
use veraxis_memory_admissibi.SessionMap.Generate.{generate-ok}
use veraxis_memory_admissibi.Gateway.Adapters.{OpenAiRequestPayload}
use veraxis_memory_admissibi.SessionMap.{sign_session_map, SessionMap, SessionMapError}
use veraxis_memory_admissibi.Audit.{verify_session_map}
use veraxis_memory_admissibi.Audit.Verify.{accepted, verify-generate}
use veraxis_memory_admissibi.Gateway.{
  LlmMessage, MemoryContextBinding, ClientWrapper, GatewayError, ProfileCache, Turn,
  sanitize_context_window, sanitize_bindings, injects,
}
use veraxis_memory_admissibi.Gateway.Messages.{DiffersAt}
use veraxis_memory_admissibi.Gateway.Window.{decision_of, sanitize-withheld}
use veraxis_memory_admissibi.Gateway.Inference.{
  no_payload, with_defaults, policy_in_force, snapshot_info, context_of, turn_of,
  execute_admissible_turn, run_turn, convert_turn, answer_turn, seal_turn, turn_session_map,
}
use veraxis_memory_admissibi.Gateway.Inference.Types.{
  AdmissibleInferenceBlock, MockRuntimeContext, ProviderResponse, ProviderError, Provider,
  OpenAiAdapter, invalid_private_key,
}

module _ ⦃p : Platform⦄ where
  pub sanitize_context_window-ok :
      (w : ClientWrapper) (cache : ProfileCache) (t : Turn) (messages : List LlmMessage)
      (bindings : List MemoryContextBinding)
      → w.profiles ≡ some cache
      → sanitize_context_window false (some w) t messages bindings
        ≡ ok (sanitize_bindings w cache t messages bindings)
  unfolding sanitize_context_window
  sanitize_context_window-ok w cache t messages bindings profiled = simp profiled refl

  pub sanitize_context_window-withheld :
      (cancelled : Bool) (w : ClientWrapper) (cache : ProfileCache) (t : Turn) (i : ℕ)
      (before : List MemoryContextBinding) (b : MemoryContextBinding)
      (after : List MemoryContextBinding) (xs ys : List LlmMessage)
      → w.profiles ≡ some cache
      → b.message_idx ≡ pos i
      → injects (decision_of w cache t b) ≡ false
      → DiffersAt i xs ys
      → sanitize_context_window cancelled (some w) t xs (before ++ b ∷ after)
        ≡ sanitize_context_window cancelled (some w) t ys (before ++ b ∷ after)
  unfolding sanitize_context_window
  sanitize_context_window-withheld true w cache t i before b after xs ys profiled at_i withheld h =
      refl
  sanitize_context_window-withheld false w cache t i before b after xs ys profiled at_i withheld h =
      sanitize_context_window-ok w cache t xs (before ++ b ∷ after) profiled
      ∙ ap ok (sanitize-withheld w cache t i before b after xs ys at_i withheld h)
      ∙ sym (sanitize_context_window-ok w cache t ys (before ++ b ∷ after) profiled)

  -- When a binding of a turn refers to message i and the decision on its memory is not to inject it,
  -- turns whose messages differ at most in the content of message i have the same outcome, whatever
  -- the provider does with its input: the same block or error and the same payload.
  pub execute-withheld :
      (clock later : Time) (w : ClientWrapper) (a : OpenAiAdapter) (provider : Provider)
      (cache : ProfileCache) (r : MockRuntimeContext) (i : ℕ) (before : List MemoryContextBinding)
      (b : MemoryContextBinding) (after : List MemoryContextBinding) (xs ys : List LlmMessage)
      → w.profiles ≡ some cache
      → b.message_idx ≡ pos i
      → injects (decision_of w cache (turn_of r) b) ≡ false
      → DiffersAt i xs ys
      → execute_admissible_turn clock later
          (some (record { wrapper = some w; adapter = some a; provider = some provider }))
          xs
          (before ++ b ∷ after)
          r
        ≡ execute_admissible_turn clock later
            (some (record { wrapper = some w; adapter = some a; provider = some provider }))
            ys
            (before ++ b ∷ after)
            r
  unfolding execute_admissible_turn run_turn with_defaults
  execute-withheld clock later w a provider cache r i before b after xs ys profiled at_i withheld
        h =
      ap
        (λ s.
          if not (length r.private_key == 64)
          then (err invalid_private_key, no_payload)
          else convert_turn later w a provider (with_defaults clock r) s)
        (sanitize_context_window-withheld (context_of (with_defaults clock r) 0) w cache (turn_of r)
          i before b after xs ys profiled at_i withheld h)

  seal_turn-ok :
      (later : Time) (a : OpenAiAdapter) (r : MockRuntimeContext) (payload : OpenAiRequestPayload)
      (response : ProviderResponse) (made : Result SessionMapError SessionMap)
      (block : AdmissibleInferenceBlock)
      → (seal_turn later a r payload response made).0 ≡ ok block
      → made ≡ ok block.session_map
  unfolding seal_turn
  seal_turn-ok later a r payload response (err e) block h = absurd (cc)
  seal_turn-ok later a r payload response (ok s) block h = cc

  answer_turn-ok :
      (later : Time) (w : ClientWrapper) (a : OpenAiAdapter) (r : MockRuntimeContext)
      (payload : OpenAiRequestPayload) (leaves : List LeafRecord)
      (answer : Result ProviderError ProviderResponse) (block : AdmissibleInferenceBlock)
      → (answer_turn later w a r payload leaves answer).0 ≡ ok block
      → turn_session_map w r leaves ≡ ok block.session_map
  unfolding answer_turn
  answer_turn-ok later w a r payload leaves (err e) block h = absurd (cc)
  answer_turn-ok later w a r payload leaves (ok response) block h =
      seal_turn-ok later a r payload response (turn_session_map w r leaves) block h

  convert_turn-ok :
      (later : Time) (w : ClientWrapper) (a : OpenAiAdapter) (provider : Provider)
      (r : MockRuntimeContext) (s : Result GatewayError (List LlmMessage × List LeafRecord))
      (block : AdmissibleInferenceBlock)
      → (convert_turn later w a provider r s).0 ≡ ok block
      → (x : List LlmMessage × List LeafRecord) × (s ≡ ok x)
        × (turn_session_map w r x.1 ≡ ok block.session_map)
  unfolding convert_turn
  convert_turn-ok later w a provider r (err e) block h = absurd (cc)
  convert_turn-ok later w a provider r (ok (window, leaves)) block h =
      ((window, leaves), refl, answer_turn-ok later w a r _ leaves _ block h)

  pub sanitize_context_window-ok_elim :
      (cancelled : Bool) (w : ClientWrapper) (cache : ProfileCache) (t : Turn)
      (messages : List LlmMessage) (bindings : List MemoryContextBinding)
      (x : List LlmMessage × List LeafRecord)
      → w.profiles ≡ some cache
      → sanitize_context_window cancelled (some w) t messages bindings ≡ ok x
      → x ≡ sanitize_bindings w cache t messages bindings
  unfolding sanitize_context_window
  sanitize_context_window-ok_elim true w cache t messages bindings x profiled h = absurd (cc)
  sanitize_context_window-ok_elim false w cache t messages bindings x profiled h =
      let sanitized = sanitize_context_window-ok w cache t messages bindings profiled in cc

  -- The session map of a turn is accepted under its key when ed25519 generated it, and holds the
  -- turn's leaf records.
  turn_session_map-accepted :
      (w : ClientWrapper) (r : MockRuntimeContext) (leaves : List LeafRecord) (s : SessionMap)
      → IsGenerated r.private_key
      → turn_session_map w r leaves ≡ ok s
      → (verify_session_map (p.ed25519_public r.private_key) s ≡ ok accepted)
        × (s.leaf_records ≡ leaves)
  unfolding turn_session_map sign_session_map
  turn_session_map-accepted w r leaves s generated h = (
    verify-generate r.map_id r.session_id r.agent_id r.actor_id r.task_id r.tenant r.context_hash
        (policy_in_force w r.policy_snapshot_hash) (snapshot_info w).0 (snapshot_info w).1 leaves
        r.private_key r.key_id r.ttl r.now s generated h,
    ap (λ t. t.leaf_records)
        (generate-ok r.map_id r.session_id r.agent_id r.actor_id r.task_id r.tenant r.context_hash
          (policy_in_force w r.policy_snapshot_hash) (snapshot_info w).0 (snapshot_info w).1 leaves
          r.private_key r.key_id r.ttl r.now s h).1,
  )

  run_turn-ok :
      (later : Time) (w : ClientWrapper) (a : OpenAiAdapter) (provider : Provider)
      (messages : List LlmMessage) (bindings : List MemoryContextBinding) (r : MockRuntimeContext)
      (block : AdmissibleInferenceBlock)
      → (run_turn later w a provider messages bindings r).0 ≡ ok block
      → (convert_turn later w a provider r
          (sanitize_context_window (context_of r 0) (some w) (turn_of r) messages bindings)).0
        ≡ ok block
  unfolding run_turn
  run_turn-ok later w a provider messages bindings r block h =
      elim (Bool-cases (not (length r.private_key == 64))) [
        | inl bad ↦ absurd (cc)
        | inr sized ↦ rw sized at h
      ]

  -- The block of a turn that succeeds with a key that ed25519 generated has a session map that
  -- verification accepts under the public key of the turn's key, and whose leaf records are those of
  -- the sanitised window.
  pub execute-verify :
      (clock later : Time) (w : ClientWrapper) (a : OpenAiAdapter) (provider : Provider)
      (cache : ProfileCache) (r : MockRuntimeContext) (messages : List LlmMessage)
      (bindings : List MemoryContextBinding) (block : AdmissibleInferenceBlock)
      → w.profiles ≡ some cache
      → IsGenerated r.private_key
      → (execute_admissible_turn clock later
          (some (record { wrapper = some w; adapter = some a; provider = some provider }))
          messages
          bindings
          r).0
        ≡ ok block
      → (verify_session_map (p.ed25519_public r.private_key) block.session_map ≡ ok accepted)
        × (block.session_map.leaf_records
            ≡ (sanitize_bindings w cache (turn_of r) messages bindings).1)
  unfolding execute_admissible_turn with_defaults
  execute-verify clock later w a provider cache r messages bindings block profiled generated h =
      let full = with_defaults clock r in
      let converted = run_turn-ok later w a provider messages bindings full block h in
      let (x, sanitized, made) = convert_turn-ok later w a provider full _ block converted in
      let (verified, same) =
        turn_session_map-accepted w full x.1 block.session_map generated made in
      let window =
        sanitize_context_window-ok_elim _ w cache (turn_of full) messages bindings x profiled
          sanitized in
      (verified, same ∙ ap (λ y. y.1) window)
