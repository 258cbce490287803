-- ===== src/Gateway/Inference/Types.antt =====
-- The data of a turn (pkg/gateway/inference.go). A context answers, for each look that a function takes
-- at it, whether `Err` is not nil; a provider, which a caller supplies, is the function of its method.
use veraxis_memory_admissibi.Prelude.{ℕ, zero, suc, Bool, false, Option, none, some, List}
use veraxis_memory_admissibi.Prelude.Bytes.{Bytes, GoString}
use veraxis_memory_admissibi.Prelude.Int.{ℤ}
use veraxis_memory_admissibi.Prelude.Result.{Result}
use veraxis_memory_admissibi.Prelude.Time.{Time, Duration}
use veraxis_memory_admissibi.Bitmask.{EvaluationMask}
use veraxis_memory_admissibi.Tenant.{IdHash}
use veraxis_memory_admissibi.SessionMap.{SessionMap, SessionMapError}
use veraxis_memory_admissibi.Gateway.{LlmMessage, ClientWrapper, GatewayError}

pub record TokenMetrics : Type 0 where
  pub prompt_tokens : ℤ
  pub completion_tokens : ℤ
  pub total_tokens : ℤ

pub record AdmissibleInferenceBlock : Type 0 where
  pub inference_id : GoString
  pub model_name : GoString
  pub response_text : GoString
  pub usage_tokens : TokenMetrics
  pub session_map : SessionMap
  pub completed_at : Time

abbrev pub Context : Type 0
Context = ℕ → Bool

-- `context.Background()`
abbrev pub background : Context
background n = false

-- A nil context is replaced.
abbrev pub given_context : Option Context → Context
given_context none = background
given_context (some ctx) = ctx

-- The context behind `n` looks.
abbrev pub after_looks : ℕ → Context → Context
after_looks zero ctx = ctx
after_looks (suc n) ctx = after_looks n (λ k. ctx (suc k))

pub record MockRuntimeContext : Type 0 where
  pub ctx : Option Context
  pub tenant : IdHash
  pub domain : IdHash
  pub mask : EvaluationMask
  pub map_id : Bytes
  pub session_id : GoString
  pub agent_id : GoString
  pub actor_id : GoString
  pub task_id : GoString
  pub context_hash : Bytes
  pub private_key : Bytes
  pub key_id : GoString
  pub policy_snapshot_hash : Bytes
  pub now : Time
  pub ttl : Duration

pub record ProviderResponse : Type 0 where
  pub response : GoString
  pub tokens : TokenMetrics

pub data ProviderError : Type 0 where
  provider_context_error response_text_required : ProviderError
  provider_failed : GoString → ProviderError

-- `LLMProviderAdapter`
abbrev pub Provider : Type 0
Provider = Context → List LlmMessage → Result ProviderError ProviderResponse

pub record OpenAiAdapter : Type 0 where
  pub adapter_model : GoString

pub record LifecycleRunner : Type 0 where
  pub wrapper : Option ClientWrapper
  pub adapter : Option OpenAiAdapter
  pub provider : Option Provider

pub data InferenceError : Type 0 where
  invalid_lifecycle_runner invalid_private_key : InferenceError
  gateway_error : GatewayError → InferenceError
  provider_error : ProviderError → InferenceError
  session_map_error : SessionMapError → InferenceError
