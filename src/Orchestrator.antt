-- ===== src/Orchestrator.antt =====
-- pkg/orchestrator: the handoff of a scratchpad to a sub-agent. The clock's reading is an argument.
pub mod Types
pub mod Admission
pub mod Handoffs
pub mod Slots
pub mod Freed
pub mod Completion
pub mod ErrorText
pub mod Results
use veraxis_memory_admissibi.Prelude.{
  ℕ, zero, suc, ◌+◌, ◌-◌, ◌/◌, ◌%◌, Bool, true, false, ◌==◌, not, Option, none, some, List, [], ◌∷◌,
  ◌++◌, ltb, length, if◌then◌else◌,
}
use veraxis_memory_admissibi.Prelude.Bytes.{Bytes, GoString, text, bytes_eq, zeros}
use veraxis_memory_admissibi.Prelude.Int.{ℤ, pos, negsuc, leb_ℤ}
use veraxis_memory_admissibi.Prelude.Result.{Result, ok, err, ◌>>=◌, ◌>>◌, reject}
use veraxis_memory_admissibi.Prelude.Time.{Time, Duration, hour, unix}
use veraxis_memory_admissibi.Platform.{Platform}
use veraxis_memory_admissibi.Bitmask.{EvaluationMask}
use veraxis_memory_admissibi.Tenant.{IdHash}
use veraxis_memory_admissibi.Merkle.{LeafRecord}
use veraxis_memory_admissibi.SessionMap.{
  SessionMap, SessionMapError, generate_session_map_with_runtime_snapshot,
}
use veraxis_memory_admissibi.Audit.Lineage.{
  MachineConsequenceRecord, LineageError, compile_lineage_record,
}
use veraxis_memory_admissibi.Gateway.{
  LlmMessage, MemoryContextBinding, ClientWrapper, GatewayError, Turn, sanitize_context_window,
}
use veraxis_memory_admissibi.Gateway.Inference.{snapshot_info}
use veraxis_memory_admissibi.Gateway.Inference.Types.{
  AdmissibleInferenceBlock, Context, given_context, after_looks, Provider, ProviderResponse,
  ProviderError,
}
use veraxis_memory_admissibi.Orchestrator.Types.{
  AgentIdentity, HandoffCoordinator, HandoffResult, Handoff, HandoffError, done_before_admission,
  coordinator_required, signing_key_required, backpressure, deadline_before_execution,
  scrubbing_fault, invocation_failure, evidence_error, lineage_failure,
}

abbrev pub sub_agent_model : GoString
sub_agent_model = text "gpt-4o-sub-agent-v1"

unfoldable pub new_handoff_coordinator :
    Option ClientWrapper → Option Provider → GoString → Bytes → ℤ → HandoffCoordinator
new_handoff_coordinator wrapper provider key_id key max = record {
  gateway_wrapper = wrapper;
  provider = provider;
  audit_key_id = key_id;
  signing_key = key;
  model_name = sub_agent_model;
  capacity = elim max [ pos n ↦ if n == 0 then 1 else n | negsuc n ↦ 1 ];
  in_flight = 0;
}

-- `modelName`
unfoldable pub current_model : HandoffCoordinator → GoString
current_model c = if not (bytes_eq c.model_name []) then c.model_name else sub_agent_model

-- `hex[d]` for a digit below 16.
abbrev pub hex_digit : ℕ → ℕ
hex_digit d = if ltb d 10 then 48 + d else 87 + d

abbrev pub hex_byte : ℕ → GoString
hex_byte b = hex_digit (b / 16) ∷ hex_digit (b % 16) ∷ []

-- The identifier's array has 16 bytes; a shorter list has none of the missing digits.
abbrev pub hex_bytes : ℕ → Bytes → GoString
hex_bytes zero id = []
hex_bytes (suc n) [] = []
hex_bytes (suc n) (b ∷ id) = hex_byte b ++ hex_bytes n id

unfoldable pub short_id : Bytes → GoString
short_id id = hex_bytes 4 id

-- A send to the channel of slots that does not wait, and a receive from it.
unfoldable pub acquire : HandoffCoordinator → Option HandoffCoordinator
acquire c =
    if ltb c.in_flight c.capacity then some (record c { in_flight = c.in_flight + 1 }) else none

unfoldable pub release : HandoffCoordinator → HandoffCoordinator
release c = record c { in_flight = c.in_flight - 1 }

abbrev pub turn_of : Handoff → Turn
turn_of h = record {
  runtime_tenant = h.target.tenant_hash;
  runtime_domain = h.target.domain_hash;
  mask = h.mask;
}

-- An error with the words that the handoff puts in front of it.
abbrev pub wrap {ℓ} :
    {E : Type 0} {A : Type ℓ} → (E → HandoffError) → Result E A → Result HandoffError A
wrap f (ok a) = ok a
wrap f (err e) = err (f e)

abbrev pub required {ℓ} : {A : Type ℓ} → Option A → Result HandoffError A
required none = err coordinator_required
required (some a) = ok a

-- The slot, where there was one, with what the guards found.
abbrev pub admitted :
    ClientWrapper
    → Provider
    → Option HandoffCoordinator
    → Result HandoffError (HandoffCoordinator × ClientWrapper × Provider)
admitted w provider none = err backpressure
admitted w provider (some held) = ok (held, w, provider)

-- The guards before the slot, and the slot.
unfoldable pub admit :
    Context
    → Option HandoffCoordinator
    → Result HandoffError (HandoffCoordinator × ClientWrapper × Provider)
unfolding acquire
admit ctx coordinator = do
  reject (ctx 0) done_before_admission
  c ← required coordinator
  w ← required c.gateway_wrapper
  provider ← required c.provider
  reject (not (length c.signing_key == 64)) signing_key_required
  admitted w provider (acquire c)

module _ ⦃p : Platform⦄ where
  -- `generateHandoffSessionMAP`
  unfoldable pub generate_handoff_session_map :
      Bytes
      → GoString
      → GoString
      → GoString
      → GoString
      → IdHash
      → Bytes
      → Bytes
      → ℕ
      → List LeafRecord
      → Bytes
      → GoString
      → Duration
      → Time
      → Result SessionMapError SessionMap
  generate_handoff_session_map map_id session agent actor task tenant policy runtime version leaves
        key key_id ttl now =
      generate_session_map_with_runtime_snapshot map_id session agent actor task tenant (zeros 32)
        policy runtime version leaves key key_id ttl now

  unfoldable pub handoff_block :
      Time → HandoffCoordinator → Handoff → ProviderResponse → SessionMap → AdmissibleInferenceBlock
  unfolding current_model short_id
  handoff_block now c h response s = record {
    inference_id = text "inf_sub_" ++ short_id h.map_id;
    model_name = current_model c;
    response_text = response.response;
    usage_tokens = response.tokens;
    session_map = s;
    completed_at = now;
  }

  -- The handoff behind the slot.
  unfoldable pub run_handoff :
      Time
      → Context
      → HandoffCoordinator
      → ClientWrapper
      → Provider
      → Handoff
      → Result HandoffError HandoffResult
  unfolding generate_handoff_session_map handoff_block
  run_handoff now ctx c w provider h = do
    reject (ctx 1) deadline_before_execution
    (messages, leaves) ←
        wrap scrubbing_fault
          (sanitize_context_window (ctx 2) (some w) (turn_of h) h.raw_scratchpad h.bindings)
    response ← wrap invocation_failure (provider (after_looks 3 ctx) messages)
    s ← wrap evidence_error (
        generate_handoff_session_map h.map_id h.session_id h.target.agent_id h.actor_id h.task_id
          h.target.tenant_hash w.policy_hash (snapshot_info w).0 (snapshot_info w).1 leaves
          c.signing_key c.audit_key_id hour now)
    mcr ← wrap lineage_failure (compile_lineage_record h.mcr_id s h.eep_id h.aep_id (unix now))
    ok (record {
      sanitized_payload = messages;
      inference_block = handoff_block now c h response s;
      consequence_token = mcr;
    })

  -- The end of the handoff: the slot, where one is held, is given back on every path. Here no other
  -- handoff takes a slot meanwhile.
  unfoldable pub conclude_handoff :
      Time
      → Context
      → Handoff
      → Option HandoffCoordinator
      → Result HandoffError (HandoffCoordinator × ClientWrapper × Provider)
      → Result HandoffError HandoffResult × Option HandoffCoordinator
  unfolding run_handoff release
  conclude_handoff now ctx h coordinator (err e) = (err e, coordinator)
  conclude_handoff now ctx h coordinator (ok (held, w, provider)) =
      (run_handoff now ctx held w provider h, some (release held))

  -- `ExecuteAgentHandoff`
  unfoldable pub execute_agent_handoff :
      Time
      → Option Context
      → Option HandoffCoordinator
      → Handoff
      → Result HandoffError HandoffResult × Option HandoffCoordinator
  unfolding admit conclude_handoff
  execute_agent_handoff now ctx coordinator h =
      conclude_handoff now (given_context ctx) h coordinator (admit (given_context ctx) coordinator)
