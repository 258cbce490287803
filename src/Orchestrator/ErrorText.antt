-- ===== src/Orchestrator/ErrorText.antt =====
-- The texts of a handoff's errors (pkg/orchestrator/handoff.go and the packages that it calls). The
-- text of `ctx.Err()` is an argument.
use veraxis_memory_admissibi.Prelude.{◌++◌}
use veraxis_memory_admissibi.Prelude.Bytes.{GoString, text}
use veraxis_memory_admissibi.SessionMap.{
  SessionMapError, zero_leaf_records, signing_key_required, ttl_not_positive,
}
use veraxis_memory_admissibi.Audit.Lineage.{LineageError, lineage_malformed}
use veraxis_memory_admissibi.Gateway.{GatewayError, context_error, profile_cache_required}
use veraxis_memory_admissibi.Gateway.Inference.Types.{
  ProviderError, provider_context_error, response_text_required, provider_failed,
}
use veraxis_memory_admissibi.Orchestrator.Types.{
  HandoffError, done_before_admission, coordinator_required, backpressure,
  deadline_before_execution, scrubbing_fault, invocation_failure, evidence_error, lineage_failure,
}

unfoldable pub session_map_error_text : SessionMapError → GoString
session_map_error_text zero_leaf_records = text "INVALID_SESSION_MAP: zero leaf records"
session_map_error_text signing_key_required =
    text "INVALID_SIGNING_KEY: Ed25519 private key required"
session_map_error_text ttl_not_positive = text "INVALID_TTL: ttl must be positive"

unfoldable pub lineage_error_text : LineageError → GoString
lineage_error_text lineage_malformed =
    text "LINEAGE_MALFORMED: EEP and AEP trackers are required to close the consequence loop"

module _ (context_text : GoString) where
  unfoldable pub gateway_error_text : GatewayError → GoString
  gateway_error_text context_error = context_text
  gateway_error_text profile_cache_required = text "INVALID_GATEWAY: profile cache required"

  unfoldable pub provider_error_text : ProviderError → GoString
  provider_error_text provider_context_error = context_text
  provider_error_text response_text_required = text "MOCK_PROVIDER_ERR: response text required"
  provider_error_text (provider_failed e) = e

  unfoldable pub handoff_error_text : HandoffError → GoString
  unfolding gateway_error_text provider_error_text session_map_error_text lineage_error_text
  handoff_error_text done_before_admission =
      text "ORCHESTRATOR_BACKPRESSURE: context done before slot admission -> " ++ context_text
  handoff_error_text coordinator_required =
      text "ORCHESTRATOR_HOOK_ERR: coordinator requires gateway wrapper and provider"
  handoff_error_text HandoffError.signing_key_required =
      text "ORCHESTRATOR_HOOK_ERR: Ed25519 private signing key required"
  handoff_error_text backpressure =
      text "ORCHESTRATOR_BACKPRESSURE: handoff queue saturated; sub-agent initialization refused"
  handoff_error_text deadline_before_execution =
      text "ORCHESTRATOR_BACKPRESSURE: context deadline exceeded before handoff execution -> "
      ++ context_text
  handoff_error_text (scrubbing_fault e) =
      text "ORCHESTRATOR_HOOK_ERR: gateway scrubbing fault -> " ++ gateway_error_text e
  handoff_error_text (invocation_failure e) =
      text "ORCHESTRATOR_HOOK_ERR: sub-agent invocation execution failure -> "
      ++ provider_error_text e
  handoff_error_text (evidence_error e) =
      text "ORCHESTRATOR_HOOK_ERR: evidence block compilation error -> " ++ session_map_error_text e
  handoff_error_text (lineage_failure e) =
      text "ORCHESTRATOR_HOOK_ERR: lineage seal failure -> " ++ lineage_error_text e
