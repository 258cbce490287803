-- ===== src/Quarantine/Event.antt =====
-- The states, the events and their reasons (pkg/quarantine/quarantine.go).
use veraxis_memory_admissibi.Prelude.{ℕ, ◌%◌, Bool, true, false, ◌==◌, if◌then◌else◌}
use veraxis_memory_admissibi.Prelude.Bytes.{Bytes, GoString, text}
use veraxis_memory_admissibi.Prelude.Time.{Time}

pub data State : Type 0 where
  clear quarantined deletion_requested revoked poisoning_suspected : State

unfoldable pub blocks_injection : State → Bool
blocks_injection quarantined = true
blocks_injection deletion_requested = true
blocks_injection revoked = true
blocks_injection poisoning_suspected = true
blocks_injection clear = false

-- A uint8; `unknown` is a value that no constant names.
pub data EventType : Type 0 where
  quarantine_memory delete_requested revoke_memory clear_quarantine poisoning_suspected : EventType
  prompt_injection_detected cross_session_leak cross_agent_leak : EventType
  unknown : ℕ → EventType

pub data QuarantineReason : Type 0 where
  poisoning_suspected prompt_injection_detected cross_session_leak : QuarantineReason
  retroactive_revocation : QuarantineReason
  unknown : ℕ → QuarantineReason

-- `EventType(n)` keeps the low byte.
unfoldable pub to_event_type : ℕ → EventType
to_event_type n =
    let b = n % 256 in
    if b == 0
    then EventType.quarantine_memory
    else if b == 1
    then EventType.delete_requested
    else if b == 2
    then EventType.revoke_memory
    else if b == 3
    then EventType.clear_quarantine
    else if b == 4
    then EventType.poisoning_suspected
    else if b == 5
    then EventType.prompt_injection_detected
    else if b == 6
    then EventType.cross_session_leak
    else if b == 7
    then EventType.cross_agent_leak
    else EventType.unknown b

-- `QuarantineReason(n)`
unfoldable pub to_quarantine_reason : ℕ → QuarantineReason
to_quarantine_reason n =
    let b = n % 256 in
    if b == 0
    then QuarantineReason.poisoning_suspected
    else if b == 1
    then QuarantineReason.prompt_injection_detected
    else if b == 2
    then QuarantineReason.cross_session_leak
    else if b == 3
    then QuarantineReason.retroactive_revocation
    else QuarantineReason.unknown b

pub record RevocationEvent : Type 0 where
  pub event_id : Bytes
  pub memory_id : Bytes
  pub event_type : EventType
  pub reason : QuarantineReason
  pub operator_id : GoString
  pub source : GoString
  pub created_at : Time
  pub policy_hash : Bytes
  pub previous_state : GoString
  pub new_state : GoString
  pub signature : Bytes
  pub signing_key_id : GoString

abbrev pub memory_poisoning_suspected : GoString
memory_poisoning_suspected = text "MEMORY_POISONING_SUSPECTED"

abbrev pub prompt_injection : GoString
prompt_injection = text "PROMPT_INJECTION_DETECTED"

abbrev pub session_leak : GoString
session_leak = text "CROSS_SESSION_LEAK"

-- The inner switch, on the reason of an explicit quarantine.
unfoldable pub quarantine_reason_code : QuarantineReason → GoString
quarantine_reason_code QuarantineReason.prompt_injection_detected = prompt_injection
quarantine_reason_code QuarantineReason.cross_session_leak = session_leak
quarantine_reason_code QuarantineReason.retroactive_revocation = text "RETROACTIVE_REVOCATION"
quarantine_reason_code _ = memory_poisoning_suspected

unfoldable pub type_reason_code : EventType → QuarantineReason → GoString
unfolding quarantine_reason_code
type_reason_code EventType.poisoning_suspected reason = memory_poisoning_suspected
type_reason_code EventType.prompt_injection_detected reason = prompt_injection
type_reason_code EventType.cross_session_leak reason = session_leak
type_reason_code EventType.cross_agent_leak reason = text "CROSS_AGENT_LEAK"
type_reason_code EventType.quarantine_memory reason = quarantine_reason_code reason
type_reason_code _ reason = text "MEMORY_QUARANTINED"

unfoldable pub reason_code : RevocationEvent → GoString
unfolding type_reason_code
reason_code event = type_reason_code event.event_type event.reason
