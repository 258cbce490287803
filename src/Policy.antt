-- ===== src/Policy.antt =====
-- pkg/policy/policy.go: a policy snapshot, valid when it is immutable and has a name.
use veraxis_memory_admissibi.Prelude.{Bool, ◌&&◌, not, []}
use veraxis_memory_admissibi.Prelude.Bytes.{Bytes, GoString, bytes_eq}
use veraxis_memory_admissibi.Bitmask.{EvaluationMask}

pub record Snapshot : Type 0 where
  pub id : GoString
  pub hash : Bytes
  pub mask : EvaluationMask
  pub immutable : Bool

unfoldable pub validate_snapshot : Snapshot → Bool
validate_snapshot s = s.immutable && not (bytes_eq s.id [])
