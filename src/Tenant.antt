-- ===== src/Tenant.antt =====
-- pkg/tenant/tenant.go: a constant-time comparison answers 1 exactly on equal arrays.
use veraxis_memory_admissibi.Prelude.{Bool}
use veraxis_memory_admissibi.Prelude.Bytes.{Bytes, bytes_eq}

abbrev pub IdHash : Type 0
IdHash = Bytes

unfoldable pub validate_tenant : IdHash → IdHash → Bool
validate_tenant memory_tenant runtime_tenant = bytes_eq memory_tenant runtime_tenant

unfoldable pub validate_domain : IdHash → IdHash → Bool
validate_domain memory_domain runtime_domain = bytes_eq memory_domain runtime_domain
