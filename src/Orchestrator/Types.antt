-- ===== src/Orchestrator/Types.antt =====
-- The data of a handoff (pkg/orchestrator/handoff.go). The channel of slots is its capacity and the
-- number of values in it.
use veraxis_memory_admissibi.Prelude.{ℕ, Option, List}
use veraxis_memory_admissibi.Prelude.Bytes.{Bytes, GoString}
use veraxis_memory_admissibi.Bitmask.{EvaluationMask}
use veraxis_memory_admissibi.Tenant.{IdHash}
use veraxis_memory_admissibi.SessionMap.{SessionMapError}
use veraxis_memory_admissibi.Audit.Lineage.{MachineConsequenceRecord, LineageError}
use veraxis_memory_admissibi.Gateway.{LlmMessage, MemoryContextBinding, ClientWrapper, GatewayError}
use veraxis_memory_admissibi.Gateway.Inference.Types.{
  AdmissibleInferenceBlock, Provider, ProviderError,
}

pub record AgentIdentity : Type 0 where
  pub agent_id : GoString
  pub tenant_hash : IdHash
  pub domain_hash : IdHash

pub record HandoffCoordinator : Type 0 where
  pub gateway_wrapper : Option ClientWrapper
  pub provider : Option Provider
  pub audit_key_id : GoString
  pub signing_key : Bytes
  pub model_name : GoString
  pub capacity : ℕ
  pub in_flight : ℕ

pub record HandoffResult : Type 0 where
  pub sanitized_payload : List LlmMessage
  pub inference_block : AdmissibleInferenceBlock
  pub consequence_token : MachineConsequenceRecord

-- The arguments of a handoff behind its context.
pub record Handoff : Type 0 where
  pub mcr_id : Bytes
  pub map_id : Bytes
  pub session_id : GoString
  pub task_id : GoString
  pub actor_id : GoString
  pub target : AgentIdentity
  pub mask : EvaluationMask
  pub raw_scratchpad : List LlmMessage
  pub bindings : List MemoryContextBinding
  pub eep_id : GoString
  pub aep_id : GoString

pub data HandoffError : Type 0 where
  done_before_admission coordinator_required signing_key_required backpressure : HandoffError
  deadline_before_execution : HandoffError
  scrubbing_fault : GatewayError → HandoffError
  invocation_failure : ProviderError → HandoffError
  evidence_error : SessionMapError → HandoffError
  lineage_failure : LineageError → HandoffError
