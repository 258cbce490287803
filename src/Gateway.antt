-- ===== src/Gateway.antt =====
-- pkg/gateway/gateway.go: the sanitising of a context window. A nil pointer or interface is `none`;
-- the profile cache, which a caller supplies, is the function of its method.
pub mod Verdict
pub mod Adapters
pub mod Inference
pub mod Messages
pub mod Window
pub mod Kept
use veraxis_memory_admissibi.Prelude.{
  ℕ, Bool, true, false, ◌==◌, ◌&&◌, ◌||◌, not, leb, Option, none, some, List, [], ◌∷◌, ◌++◌, length,
  modify, if◌then◌else◌,
}
use veraxis_memory_admissibi.Prelude.Bytes.{Bytes, GoString, text, bytes_eq}
use veraxis_memory_admissibi.Prelude.Int.{ℤ, pos, negsuc}
use veraxis_memory_admissibi.Prelude.Result.{Result, ok, err}
use veraxis_memory_admissibi.Platform.{Platform}
use veraxis_memory_admissibi.Bitmask.{EvaluationMask}
use veraxis_memory_admissibi.Tenant.{IdHash, validate_tenant, validate_domain}
use veraxis_memory_admissibi.Evaluate.{
  Decision, use_memory, qualify, refresh, escalate, refuse, ignore, quarantine, delete_requested,
  hard_refuse, decision_code, evaluate_memory_hot_path, reason_tenant_mismatch,
  reason_domain_mismatch, reason_memory_profile_missing,
}
use veraxis_memory_admissibi.Merkle.{LeafRecord}
use veraxis_memory_admissibi.Quarantine.Monitor
use veraxis_memory_admissibi.Quarantine.Monitor.{RuntimeMonitor}

pub record LlmMessage : Type 0 where
  pub role : GoString
  pub content : GoString

pub record MemoryContextBinding : Type 0 where
  pub memory_id : Bytes
  pub memory_hash : Bytes
  pub message_idx : ℤ

pub record MemoryProfile : Type 0 where
  pub memory_id : Bytes
  pub tenant_hash : IdHash
  pub domain_hash : IdHash
  pub flags : ℕ
  pub usage_constraints : GoString

abbrev pub ProfileCache : Type 0
ProfileCache = Bytes → Option MemoryProfile

pub record ClientWrapper : Type 0 where
  pub profiles : Option ProfileCache
  pub policy_hash : Bytes
  pub runtime_monitor : Option RuntimeMonitor

pub data GatewayError : Type 0 where
  context_error profile_cache_required : GatewayError

-- The arguments of a turn that every binding is judged with.
pub record Turn : Type 0 where
  pub runtime_tenant : IdHash
  pub runtime_domain : IdHash
  pub mask : EvaluationMask

abbrev pub tombstone_refresh : GoString
tombstone_refresh = text "[VERAXIS: MEMORY_REFRESH_REQUIRED - CONTENT_STRIPPED]"

abbrev pub tombstone_escalate : GoString
tombstone_escalate = text "[VERAXIS: MEMORY_ESCALATION_REQUIRED - CONTENT_STRIPPED]"

abbrev pub tombstone_refuse : GoString
tombstone_refuse = text "[VERAXIS: MEMORY_ADMISSIBILITY_DENIED - CONTENT_STRIPPED]"

abbrev pub tombstone_ignore : GoString
tombstone_ignore = text "[VERAXIS: MEMORY_IGNORED - CONTENT_STRIPPED]"

abbrev pub tombstone_quarantine : GoString
tombstone_quarantine = text "[VERAXIS: MEMORY_QUARANTINED - CONTENT_STRIPPED]"

abbrev pub tombstone_delete_requested : GoString
tombstone_delete_requested = text "[VERAXIS: MEMORY_DELETION_REQUESTED - CONTENT_STRIPPED]"

abbrev pub tombstone_hard_refuse : GoString
tombstone_hard_refuse = text "[VERAXIS: HARD_REFUSE_BOUNDARY_VIOLATION - CONTENT_STRIPPED]"

-- `decision == evaluate.DecisionUse`
abbrev pub is_use : Decision → Bool
is_use d = decision_code d == 0

unfoldable pub annotate_constraints : GoString → GoString → GoString
annotate_constraints content constraints =
    let named =
      if bytes_eq constraints []
      then text "qualified memory; restricted downstream use"
      else constraints in
    text "[VERAXIS QUALIFIED MEMORY: " ++ (named ++ ((text "]" ++ (10 ∷ [])) ++ content))

-- The chain of tests that gives `decision` and `reason` for a profile.
unfoldable pub decide : Option RuntimeMonitor → Turn → Bytes → MemoryProfile → Decision × GoString
decide monitor turn memory_id profile =
    let evaluated =
      evaluate_memory_hot_path turn.runtime_tenant profile.tenant_hash turn.runtime_domain
        profile.domain_hash profile.flags turn.mask in
    if not (validate_tenant profile.tenant_hash turn.runtime_tenant)
    then (hard_refuse, reason_tenant_mismatch)
    else if not (validate_domain profile.domain_hash turn.runtime_domain)
    then (refuse, reason_domain_mismatch)
    else elim monitor [
      | some m ↦
          let runtime = Monitor.lookup m memory_id in
          if not (is_use runtime.decision) then (runtime.decision, runtime.reason) else evaluated
      | none ↦ evaluated
    ]

-- A use under constraints is a qualified use.
unfoldable pub qualify_use : GoString → Decision × GoString → Decision × GoString
qualify_use constraints (decision, reason) =
    if is_use decision && not (bytes_eq constraints [])
    then (qualify, text "QUALIFIED_USE_ONLY")
    else (decision, reason)

-- The decision and the reason of a binding whose index is in range.
unfoldable pub verdict :
    Option RuntimeMonitor → Turn → Bytes → Option MemoryProfile → Decision × GoString
unfolding decide qualify_use
verdict monitor turn memory_id none = (hard_refuse, reason_memory_profile_missing)
verdict monitor turn memory_id (some profile) =
    qualify_use profile.usage_constraints (decide monitor turn memory_id profile)

-- `injected`, and what the switch leaves of the message; its default is for no decision.
unfoldable pub injects : Decision → Bool
injects use_memory = true
injects qualify = true
injects d = false

unfoldable pub sanitize_content : Decision → GoString → GoString → GoString
sanitize_content use_memory constraints content = content
sanitize_content qualify constraints content = annotate_constraints content constraints
sanitize_content refresh constraints content = tombstone_refresh
sanitize_content escalate constraints content = tombstone_escalate
sanitize_content refuse constraints content = tombstone_refuse
sanitize_content ignore constraints content = tombstone_ignore
sanitize_content quarantine constraints content = tombstone_quarantine
sanitize_content delete_requested constraints content = tombstone_delete_requested
sanitize_content hard_refuse constraints content = tombstone_hard_refuse

abbrev pub constraints_of : Option MemoryProfile → GoString
constraints_of none = []
constraints_of (some profile) = profile.usage_constraints

-- `sanitized[i].Content = f(sanitized[i].Content)`
abbrev pub on_content : (GoString → GoString) → LlmMessage → LlmMessage
on_content f m = record m { content = f m.content }

-- `i < 0 || i >= n`
abbrev pub out_of_range : ℤ → ℕ → Bool
out_of_range (pos i) n = leb n i
out_of_range (negsuc i) n = true

abbrev pub to_index : ℤ → ℕ
to_index (pos i) = i
to_index (negsuc i) = 0

module _ ⦃p : Platform⦄ where
  unfoldable pub hash_reason : GoString → Bytes
  hash_reason reason = p.sha256 reason

  unfoldable pub leaf : Bytes → MemoryContextBinding → Decision → Bool → GoString → LeafRecord
  unfolding hash_reason
  leaf policy_hash binding decision injected reason = record {
    memory_id = binding.memory_id;
    memory_hash = binding.memory_hash;
    decision_code = decision_code decision;
    injected = injected;
    policy_hash = policy_hash;
    reason_code_hash = hash_reason reason;
  }

  -- One round of the loop over the bindings.
  unfoldable pub sanitize_binding :
      ClientWrapper
      → ProfileCache
      → Turn
      → List LlmMessage
      → MemoryContextBinding
      → List LlmMessage × LeafRecord
  unfolding leaf
  sanitize_binding w profiles turn sanitized binding =
      let profile = profiles binding.memory_id in
      let (decision, reason) = verdict w.runtime_monitor turn binding.memory_id profile in
      if out_of_range binding.message_idx (length sanitized)
      then (sanitized, leaf w.policy_hash binding hard_refuse false reason_memory_profile_missing)
      else (
        modify sanitized (to_index binding.message_idx)
            (on_content (sanitize_content decision (constraints_of profile))),
        leaf w.policy_hash binding decision (injects decision) reason,
      )

  unfoldable pub sanitize_bindings :
      ClientWrapper
      → ProfileCache
      → Turn
      → List LlmMessage
      → List MemoryContextBinding
      → List LlmMessage × List LeafRecord
  sanitize_bindings w profiles turn sanitized [] = (sanitized, [])
  sanitize_bindings w profiles turn sanitized (b ∷ bs) =
      let (next, l) = sanitize_binding w profiles turn sanitized b in
      let (window, leaves) = sanitize_bindings w profiles turn next bs in (window, l ∷ leaves)

  -- `cancelled` says whether `ctx.Err()` is not nil.
  unfoldable pub sanitize_context_window :
      Bool
      → Option ClientWrapper
      → Turn
      → List LlmMessage
      → List MemoryContextBinding
      → Result GatewayError (List LlmMessage × List LeafRecord)
  unfolding sanitize_bindings
  sanitize_context_window true w turn messages bindings = err context_error
  sanitize_context_window false none turn messages bindings = err profile_cache_required
  sanitize_context_window false (some w) turn messages bindings = elim w.profiles [
    | none ↦ err profile_cache_required
    | some profiles ↦ ok (sanitize_bindings w profiles turn messages bindings)
  ]
