-- ===== src/Gateway/Inference.antt =====
-- pkg/gateway/inference.go: one admissible turn. The clock's readings are arguments.
pub mod Types
pub mod Turns
pub mod Completion
pub mod Sealed
pub mod Conditions
use veraxis_memory_admissibi.Prelude.{
  ℕ, zero, suc, ◌==◌, Bool, true, false, not, Option, none, some, List, [], length, if◌then◌else◌,
}
use veraxis_memory_admissibi.Prelude.Bytes.{Bytes, GoString, text, bytes_eq, zeros}
use veraxis_memory_admissibi.Prelude.Int.{ℤ, pos, leb_ℤ}
use veraxis_memory_admissibi.Prelude.Result.{Result, ok, err}
use veraxis_memory_admissibi.Prelude.Time.{Time, Duration, hour, is_zero}
use veraxis_memory_admissibi.Platform.{Platform}
use veraxis_memory_admissibi.Bitmask.{EvaluationMask}
use veraxis_memory_admissibi.Tenant.{IdHash}
use veraxis_memory_admissibi.Merkle.{LeafRecord}
use veraxis_memory_admissibi.SessionMap.{
  SessionMap, SessionMapError, generate_session_map_with_runtime_snapshot,
}
use veraxis_memory_admissibi.Quarantine.Monitor.{active_snapshot_info}
use veraxis_memory_admissibi.Gateway.{
  LlmMessage, MemoryContextBinding, ClientWrapper, GatewayError, Turn, sanitize_context_window,
}
use veraxis_memory_admissibi.Gateway.Adapters.{OpenAiRequestPayload, open_ai_convert}
use veraxis_memory_admissibi.Gateway.Inference.Types.{
  TokenMetrics, AdmissibleInferenceBlock, Context, background, given_context, after_looks,
  MockRuntimeContext, ProviderResponse, ProviderError, provider_context_error,
  response_text_required, provider_failed, Provider, OpenAiAdapter, LifecycleRunner, InferenceError,
  invalid_lifecycle_runner, invalid_private_key, gateway_error, provider_error, session_map_error,
}

-- `MockInferenceProvider.Invoke`
unfoldable pub mock_invoke : ProviderResponse → Provider
mock_invoke r ctx messages =
    if ctx 0
    then err provider_context_error
    else if bytes_eq r.response []
    then err response_text_required
    else ok r

-- The block and the payload that the runner returns; on an error the block is the zero value.
abbrev pub Outcome : Type 0
Outcome = Result InferenceError AdmissibleInferenceBlock × OpenAiRequestPayload

-- `OpenAIRequestPayload{}`
abbrev pub no_payload : OpenAiRequestPayload
no_payload = record { model = []; messages = [] }

-- A context that is nil, a time that is zero and a time to live that is not positive are replaced.
unfoldable pub with_defaults : Time → MockRuntimeContext → MockRuntimeContext
with_defaults clock r = record r {
  ctx = some (given_context r.ctx);
  now = if is_zero r.now then clock else r.now;
  ttl = if leb_ℤ r.ttl (pos 0) then hour else r.ttl;
}

abbrev pub context_of : MockRuntimeContext → Context
context_of r = given_context r.ctx

abbrev pub turn_of : MockRuntimeContext → Turn
turn_of r = record { runtime_tenant = r.tenant; runtime_domain = r.domain; mask = r.mask }

-- The policy hash and the snapshot that the session map is signed with.
unfoldable pub policy_in_force : ClientWrapper → Bytes → Bytes
policy_in_force w hash = if not (bytes_eq hash (zeros 32)) then hash else w.policy_hash

unfoldable pub snapshot_info : ClientWrapper → Bytes × ℕ
snapshot_info w = elim w.runtime_monitor [ none ↦ (zeros 32, 0) | some m ↦ active_snapshot_info m ]

module _ ⦃p : Platform⦄ where
  unfoldable pub turn_session_map :
      ClientWrapper → MockRuntimeContext → List LeafRecord → Result SessionMapError SessionMap
  unfolding policy_in_force snapshot_info
  turn_session_map w r leaves =
      let (snapshot_hash, version) = snapshot_info w in
      generate_session_map_with_runtime_snapshot r.map_id r.session_id r.agent_id r.actor_id
        r.task_id r.tenant r.context_hash (policy_in_force w r.policy_snapshot_hash) snapshot_hash
        version leaves r.private_key r.key_id r.ttl r.now

  -- The end of the turn, behind the session map.
  unfoldable pub seal_turn :
      Time
      → OpenAiAdapter
      → MockRuntimeContext
      → OpenAiRequestPayload
      → ProviderResponse
      → Result SessionMapError SessionMap
      → Outcome
  seal_turn later a r payload response (err e) = (err (session_map_error e), payload)
  seal_turn later a r payload response (ok s) = (
    ok (record {
      inference_id = text "inf_local_0001";
      model_name = a.adapter_model;
      response_text = response.response;
      usage_tokens = response.tokens;
      session_map = s;
      completed_at = if is_zero r.now then later else r.now;
    }),
    payload,
  )

  -- The turn behind the provider, which is called with the sanitised window.
  unfoldable pub answer_turn :
      Time
      → ClientWrapper
      → OpenAiAdapter
      → MockRuntimeContext
      → OpenAiRequestPayload
      → List LeafRecord
      → Result ProviderError ProviderResponse
      → Outcome
  answer_turn later w a r payload leaves (err e) = (err (provider_error e), payload)
  answer_turn later w a r payload leaves (ok response) =
      seal_turn later a r payload response (turn_session_map w r leaves)

  unfoldable pub convert_turn :
      Time
      → ClientWrapper
      → OpenAiAdapter
      → Provider
      → MockRuntimeContext
      → Result GatewayError (List LlmMessage × List LeafRecord)
      → Outcome
  convert_turn later w a provider r (err e) = (err (gateway_error e), no_payload)
  convert_turn later w a provider r (ok (sanitized, leaves)) =
      answer_turn later w a r (open_ai_convert a.adapter_model sanitized) leaves
        (provider (after_looks 1 (context_of r)) sanitized)

  -- The turn behind the guards for nil.
  unfoldable pub run_turn :
      Time
      → ClientWrapper
      → OpenAiAdapter
      → Provider
      → List LlmMessage
      → List MemoryContextBinding
      → MockRuntimeContext
      → Outcome
  unfolding convert_turn
  run_turn later w a provider messages bindings r =
      if not (length r.private_key == 64)
      then (err invalid_private_key, no_payload)
      else convert_turn later w a provider r
          (sanitize_context_window (context_of r 0) (some w) (turn_of r) messages bindings)

  -- `ExecuteAdmissibleTurn`; `clock` and `later` are its two readings of the clock.
  unfoldable pub execute_admissible_turn :
      Time
      → Time
      → Option LifecycleRunner
      → List LlmMessage
      → List MemoryContextBinding
      → MockRuntimeContext
      → Outcome
  unfolding run_turn with_defaults
  execute_admissible_turn clock later none messages bindings r =
      (err invalid_lifecycle_runner, no_payload)
  execute_admissible_turn clock later (some runner) messages bindings r = elim runner.wrapper [
    | none ↦ (err invalid_lifecycle_runner, no_payload)
    | some w ↦ elim runner.adapter [
      | none ↦ (err invalid_lifecycle_runner, no_payload)
      | some a ↦ elim runner.provider [
        | none ↦ (err invalid_lifecycle_runner, no_payload)
        | some provider ↦ run_turn later w a provider messages bindings (with_defaults clock r)
      ]
    ]
  ]
