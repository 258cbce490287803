-- ===== src/Rpc/Types.antt =====
-- The server's state of pkg/rpc/server.go, and the requests, the responses and the errors of
-- types.go and errors.go.
use veraxis_memory_admissibi.Prelude.{ℕ, Bool, Option, List}
use veraxis_memory_admissibi.Prelude.Bytes.{Bytes, GoString}
use veraxis_memory_admissibi.Quarantine.Monitor.{RuntimeMonitor}
use veraxis_memory_admissibi.Quarantine.Ledger.{LedgerError, FileLedger}

pub record AdmissibilityServer : Type 0 where
  pub monitor : Option RuntimeMonitor
  pub ledger : Option FileLedger

pub record RuntimeContext : Type 0 where
  pub tenant_hash : Bytes
  pub domain_hash : Bytes
  pub required_lifecycle : ℕ
  pub prohibited_safety : ℕ
  pub allowed_use_classes : ℕ
  pub prohibited_use_blocks : ℕ

pub record MemoryCandidate : Type 0 where
  pub memory_id : Bytes
  pub memory_hash : Bytes
  pub memory_flags : ℕ

pub record EvaluateRequest : Type 0 where
  pub session_id : GoString
  pub agent_id : GoString
  pub context : Option RuntimeContext
  pub candidates : List (Option MemoryCandidate)

pub record MemoryDecisionLeaf : Type 0 where
  pub memory_id : Bytes
  pub decision_code : ℕ
  pub reason_code : GoString
  pub injected : Bool

pub record EvaluateResponse : Type 0 where
  pub session_id : GoString
  pub merkle_root : Bytes
  pub decisions : List MemoryDecisionLeaf
  pub runtime_snapshot_version : ℕ

pub record RevocationRequest : Type 0 where
  pub memory_id : Bytes
  pub event_type : ℕ
  pub reason_code : ℕ
  pub operator_id : GoString
  pub source : GoString

pub record RevocationResponse : Type 0 where
  pub event_id : Bytes
  pub updated_snapshot_version : ℕ
  pub updated_snapshot_hash : Bytes

-- `Internal`, `InvalidArgument`, and the errors that the handlers pass on.
pub data RpcError : Type 0 where
  context_error server_not_ready invalid_argument random_error : RpcError
  ledger_error : LedgerError → RpcError
