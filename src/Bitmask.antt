-- ===== src/Bitmask.antt =====
-- pkg/bitmask/bitmask.go: the flag words of a memory and the evaluation mask. Both flag types are
-- uint64, so a conversion between them changes nothing.
use veraxis_memory_admissibi.Prelude.{ℕ, ◌^◌, ◌≡◌}
use veraxis_memory_admissibi.Prelude.Bits.{bit}

abbrev pub flag_lifecycle_active : ℕ
flag_lifecycle_active = 2 ^ 0

abbrev pub flag_lifecycle_expired : ℕ
flag_lifecycle_expired = 2 ^ 1

abbrev pub flag_lifecycle_deletion_req : ℕ
flag_lifecycle_deletion_req = 2 ^ 2

abbrev pub flag_lifecycle_revoked : ℕ
flag_lifecycle_revoked = 2 ^ 3

abbrev pub flag_safety_quarantined : ℕ
flag_safety_quarantined = 2 ^ 4

abbrev pub flag_safety_poisoning_suspected : ℕ
flag_safety_poisoning_suspected = 2 ^ 5

abbrev pub class_use_tone_adjustment : ℕ
class_use_tone_adjustment = 2 ^ 8

abbrev pub class_use_context_only : ℕ
class_use_context_only = 2 ^ 9

abbrev pub class_use_decision_support : ℕ
class_use_decision_support = 2 ^ 10

abbrev pub class_use_automated_action : ℕ
class_use_automated_action = 2 ^ 11

abbrev pub block_use_automated_denial : ℕ
block_use_automated_denial = 2 ^ 16

abbrev pub block_use_credit_evaluation : ℕ
block_use_credit_evaluation = 2 ^ 17

abbrev pub block_use_clinical_triage : ℕ
block_use_clinical_triage = 2 ^ 18

pub record EvaluationMask : Type 0 where
  pub required_lifecycle : ℕ
  pub prohibited_safety : ℕ
  pub allowed_use_classes : ℕ
  pub prohibited_use_blocks : ℕ
  pub sensitivity_limit : ℕ

-- Two flag words have a flag in common.
abbrev pub SharesFlag : ℕ → ℕ → Type 0
SharesFlag a b = (k : ℕ) × (bit a k ≡ 1) × (bit b k ≡ 1)

-- Every flag of the first word is a flag of the second.
abbrev pub IsSubmask : ℕ → ℕ → Type 0
IsSubmask a b = (k : ℕ) → bit a k ≡ 1 → bit b k ≡ 1
