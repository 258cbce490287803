-- ===== src/Commands.antt =====
-- The programs that drive the library over a fixed scenario, of one good, one constrained and one
-- foreign memory. What they print on the way is left out.
pub mod Harness
pub mod ClientLoop
pub mod Scenario
pub mod LoopEnd
pub mod Staging
mod Server
use veraxis_memory_admissibi.Prelude.{
  Bool, true, false, ◌==◌, ◌&&◌, ◌||◌, Option, none, some, List, [], ◌∷◌, replicate, if◌then◌else◌,
}
use veraxis_memory_admissibi.Prelude.Bytes.{Bytes, GoString, text, bytes_eq}
use veraxis_memory_admissibi.Prelude.Int.{pos}
use veraxis_memory_admissibi.Platform.{Platform}
use veraxis_memory_admissibi.Bitmask.{
  flag_lifecycle_active, class_use_context_only, class_use_tone_adjustment,
}
use veraxis_memory_admissibi.Gateway.{
  LlmMessage, MemoryContextBinding, MemoryProfile, ProfileCache, ClientWrapper,
}
use Prim.Native.Nat.{ℕ, bit_or}

-- `strings.HasPrefix` and `strings.Contains`
unfoldable pub has_prefix : GoString → GoString → Bool
has_prefix s [] = true
has_prefix [] (b ∷ prefix) = false
has_prefix (a ∷ s) (b ∷ prefix) = a == b && has_prefix s prefix

unfoldable pub contains : GoString → GoString → Bool
unfolding has_prefix
contains [] part = has_prefix [] part
contains (a ∷ s) part = has_prefix (a ∷ s) part || contains s part

unfoldable pub any_contains : List LlmMessage → GoString → Bool
unfolding contains
any_contains [] part = false
any_contains (m ∷ messages) part = contains m.content part || any_contains messages part

-- `[16]byte{n}`
abbrev pub id_of : ℕ → Bytes
id_of n = n ∷ replicate 15 0

abbrev pub rogue_text : GoString
rogue_text = text "rogue cross-tenant memory"

-- A map of profiles as a cache; the key of an entry is the entry's memory.
unfoldable pub cache_of : List MemoryProfile → ProfileCache
cache_of [] id = none
cache_of (q ∷ profiles) id = if bytes_eq q.memory_id id then some q else cache_of profiles id

module _ ⦃p : Platform⦄ where
  abbrev pub hash_text : GoString → Bytes
  hash_text s = p.sha256 s

  abbrev pub valid_tenant : Bytes
  valid_tenant = hash_text (text "tenant_enterprise_alpha")

  abbrev pub rogue_tenant : Bytes
  rogue_tenant = hash_text (text "tenant_attacker_omega")

  abbrev pub default_domain : Bytes
  default_domain = hash_text (text "domain_customer_support")

  abbrev pub policy_of_2026 : Bytes
  policy_of_2026 = hash_text (text "policy_snapshot_v1_2026")

  abbrev pub profiles : List MemoryProfile
  profiles =
      record {
        memory_id = id_of 1;
        tenant_hash = valid_tenant;
        domain_hash = default_domain;
        flags = bit_or flag_lifecycle_active class_use_context_only;
        usage_constraints = [];
      }
      ∷ record {
        memory_id = id_of 2;
        tenant_hash = valid_tenant;
        domain_hash = default_domain;
        flags = bit_or flag_lifecycle_active class_use_tone_adjustment;
        usage_constraints =
            text "may be used for tone/context only; prohibited for automated denial";
      }
      ∷ record {
        memory_id = id_of 3;
        tenant_hash = rogue_tenant;
        domain_hash = default_domain;
        flags = bit_or flag_lifecycle_active class_use_context_only;
        usage_constraints = [];
      }
      ∷ []

  abbrev pub bindings : List MemoryContextBinding
  bindings =
      record { memory_id = id_of 1; memory_hash = hash_text (text "good"); message_idx = pos 1 }
      ∷ record { memory_id = id_of 2; memory_hash = hash_text (text "qual"); message_idx = pos 2 }
      ∷ record { memory_id = id_of 3; memory_hash = hash_text (text "rogue"); message_idx = pos 3 }
      ∷ []

  abbrev pub wrapper : ClientWrapper
  wrapper = record {
    profiles = some (cache_of profiles);
    policy_hash = policy_of_2026;
    runtime_monitor = none;
  }
