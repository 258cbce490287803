-- ===== src/Evaluate.antt =====
-- pkg/evaluate/evaluate.go: the decisions, the reasons and the evaluation of one memory.
pub mod Table
use Prim.Native.Nat.{bit_and, bit_or}
use veraxis_memory_admissibi.Prelude.{ℕ, Bool, not, ◌==◌, if◌then◌else◌}
use veraxis_memory_admissibi.Prelude.Bytes.{GoString, text}
use veraxis_memory_admissibi.Bitmask.{
  EvaluationMask, flag_lifecycle_expired, flag_lifecycle_deletion_req, flag_lifecycle_revoked,
}
use veraxis_memory_admissibi.Tenant.{IdHash, validate_tenant, validate_domain}

pub data Decision : Type 0 where
  use_memory qualify refresh escalate refuse ignore quarantine delete_requested hard_refuse :
      Decision

-- `uint8(decision)`: the constants count up from 0.
unfoldable pub decision_code : Decision → ℕ
decision_code use_memory = 0
decision_code qualify = 1
decision_code refresh = 2
decision_code escalate = 3
decision_code refuse = 4
decision_code ignore = 5
decision_code quarantine = 6
decision_code delete_requested = 7
decision_code hard_refuse = 8

abbrev pub reason_use : GoString
reason_use = text "USE"

abbrev pub reason_tenant_mismatch : GoString
reason_tenant_mismatch = text "TENANT_MISMATCH"

abbrev pub reason_domain_mismatch : GoString
reason_domain_mismatch = text "DOMAIN_MISMATCH"

abbrev pub reason_deletion_requested : GoString
reason_deletion_requested = text "DELETION_REQUESTED"

abbrev pub reason_lifecycle_invalid : GoString
reason_lifecycle_invalid = text "LIFECYCLE_INVALID"

abbrev pub reason_memory_expired : GoString
reason_memory_expired = text "MEMORY_EXPIRED"

abbrev pub reason_memory_revoked : GoString
reason_memory_revoked = text "MEMORY_REVOKED"

abbrev pub reason_safety_isolation_triggered : GoString
reason_safety_isolation_triggered = text "SAFETY_ISOLATION_TRIGGERED"

abbrev pub reason_prohibited_use_enforced : GoString
reason_prohibited_use_enforced = text "PROHIBITED_USE_ENFORCED"

abbrev pub reason_no_explicit_use_permitted : GoString
reason_no_explicit_use_permitted = text "NO_EXPLICIT_USE_PERMITTED"

abbrev pub reason_memory_profile_missing : GoString
reason_memory_profile_missing = text "MEMORY_PROFILE_MISSING"

abbrev pub invalid_lifecycle_flags : ℕ
invalid_lifecycle_flags =
    bit_or (bit_or flag_lifecycle_expired flag_lifecycle_deletion_req) flag_lifecycle_revoked

-- `(a & b) != 0`
abbrev pub intersects : ℕ → ℕ → Bool
intersects a b = not (bit_and a b == 0)

unfoldable pub evaluate_memory_hot_path :
    IdHash → IdHash → IdHash → IdHash → ℕ → EvaluationMask → Decision × GoString
evaluate_memory_hot_path runtime_tenant mem_tenant runtime_domain mem_domain flags mask =
    if not (validate_tenant mem_tenant runtime_tenant)
    then (hard_refuse, reason_tenant_mismatch)
    else if not (validate_domain mem_domain runtime_domain)
    then (refuse, reason_domain_mismatch)
    else if intersects flags invalid_lifecycle_flags
    then (if intersects flags flag_lifecycle_deletion_req
        then (delete_requested, reason_deletion_requested)
        else if intersects flags flag_lifecycle_expired
        then (refresh, reason_memory_expired)
        else if intersects flags flag_lifecycle_revoked
        then (refuse, reason_memory_revoked)
        else (refuse, reason_lifecycle_invalid))
    else if intersects flags mask.prohibited_safety
    then (quarantine, reason_safety_isolation_triggered)
    else if intersects flags mask.prohibited_use_blocks
    then (refuse, reason_prohibited_use_enforced)
    else if bit_and flags mask.allowed_use_classes == 0
    then (ignore, reason_no_explicit_use_permitted)
    else (use_memory, reason_use)
