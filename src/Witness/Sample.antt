-- ===== src/Witness/Sample.antt =====
-- The records that the witnesses share.
use veraxis_memory_admissibi.Prelude.{ℕ, [], true, replicate, some, none, if◌then◌else◌}
use veraxis_memory_admissibi.Prelude.Bytes.{Bytes, GoString, text, bytes_eq, zeros}
use veraxis_memory_admissibi.Prelude.Int.{pos}
use veraxis_memory_admissibi.Prelude.Result.{ok}
use veraxis_memory_admissibi.Bitmask.{
  EvaluationMask, class_use_context_only, flag_safety_quarantined, block_use_credit_evaluation,
}
use veraxis_memory_admissibi.Merkle.{LeafRecord}
use veraxis_memory_admissibi.Gateway.{
  MemoryProfile, ProfileCache, ClientWrapper, Turn, LlmMessage, MemoryContextBinding,
}
use veraxis_memory_admissibi.Quarantine.Event.{RevocationEvent, EventType, QuarantineReason}
use veraxis_memory_admissibi.Quarantine.Ledger.{Codec}

abbrev pub id_a : Bytes
id_a = replicate 16 1

abbrev pub id_b : Bytes
id_b = replicate 16 2

abbrev pub hash_of : ℕ → Bytes
hash_of n = replicate 32 n

abbrev pub leaf_of : Bytes → LeafRecord
leaf_of id = record {
  memory_id = id;
  memory_hash = hash_of 3;
  decision_code = 0;
  injected = true;
  policy_hash = hash_of 4;
  reason_code_hash = hash_of 5;
}

abbrev pub mask : EvaluationMask
mask = record {
  required_lifecycle = 1;
  prohibited_safety = flag_safety_quarantined;
  allowed_use_classes = class_use_context_only;
  prohibited_use_blocks = block_use_credit_evaluation;
  sensitivity_limit = 0;
}

abbrev pub event : Bytes → EventType → RevocationEvent
event id t = record {
  event_id = id;
  memory_id = id_a;
  event_type = t;
  reason = QuarantineReason.retroactive_revocation;
  operator_id = text "op";
  source = text "test";
  created_at = pos 0;
  policy_hash = hash_of 4;
  previous_state = [];
  new_state = [];
  signature = zeros 64;
  signing_key_id = [];
}

-- A codec of revocations that keeps the event's id.
abbrev pub codec : Codec
codec = record {
  marshal = λ e. ok e.event_id;
  unmarshal = λ b. ok (event b EventType.revoke_memory);
}

abbrev pub profile : MemoryProfile
profile = record {
  memory_id = id_a;
  tenant_hash = hash_of 6;
  domain_hash = hash_of 7;
  flags = class_use_context_only;
  usage_constraints = [];
}

-- A cache that knows one memory.
abbrev pub cache : ProfileCache
cache id = if bytes_eq id id_a then some profile else none

abbrev pub turn : Turn
turn = record { runtime_tenant = hash_of 6; runtime_domain = hash_of 7; mask = mask }

abbrev pub client : ClientWrapper
client = record { profiles = some cache; policy_hash = hash_of 4; runtime_monitor = none }

abbrev pub message : GoString → LlmMessage
message c = record { role = text "user"; content = c }

abbrev pub bind : Bytes → ℕ → MemoryContextBinding
bind id i = record { memory_id = id; memory_hash = hash_of 3; message_idx = pos i }
