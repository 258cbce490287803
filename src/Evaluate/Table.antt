-- ===== src/Evaluate/Table.antt =====
-- The decision table of `evaluate_memory_hot_path`, flag by flag.
use Prim.Native.Nat.{bit_and}
use veraxis_memory_admissibi.Prelude.{
  ℕ, ◌+◌, ◌*◌, ◌/◌, ◌≡◌, refl, ◌↔◌, inl, inr, true, false, arith, ap, Bool-cases,
}
use veraxis_memory_admissibi.Prelude.Bits.{
  bit, bit_and-digit, bit_and-ne-zero, shared_bit, bit_and-zero,
}
use veraxis_memory_admissibi.Prelude.Bytes.{bytes_eq, bytes_eq_iff}
use veraxis_memory_admissibi.Bitmask.{EvaluationMask, SharesFlag, IsSubmask}
use veraxis_memory_admissibi.Tenant.{IdHash, validate_tenant, validate_domain}
use veraxis_memory_admissibi.Evaluate.{
  use_memory, refresh, refuse, delete_requested, intersects, evaluate_memory_hot_path, reason_use,
  reason_deletion_requested, reason_memory_expired, reason_memory_revoked,
}

-- The test `(a & b) != 0` decides that the words share a flag.
pub intersects_iff : (a b : ℕ) → (intersects a b ≡ true) ↔ SharesFlag a b
intersects_iff a b =
    (λ e. shared_bit a b (ground arith), λ (k, p, q). ground (arith, bit_and-ne-zero k a b p q))

pub not-intersects : (a b : ℕ) → intersects a b ≡ false → ¬ SharesFlag a b
not-intersects a b e s = cc ((intersects_iff a b).1 s)

intersects-false : (a b : ℕ) → ¬ SharesFlag a b → intersects a b ≡ false
intersects-false a b n = elim (Bool-cases (intersects a b)) [
  | inl e ↦ absurd (n ((intersects_iff a b).0 e))
  | inr e ↦ e
]

-- The flags of the lifecycle are the bits 1, 2 and 3.
masked_lifecycle :
    (flags : ℕ)
    → (bit_and flags 2 ≡ 2 * bit flags 1)
      × (bit_and flags 4 ≡ 4 * bit flags 2)
      × (bit_and flags 8 ≡ 8 * bit flags 3)
      × (bit_and flags 14 ≡ 2 * bit flags 1 + 4 * bit flags 2 + 8 * bit flags 3)
masked_lifecycle flags = omega (
  arith,
  bit_and-digit flags 2,
  bit_and-digit (flags / 2) 1,
  bit_and-digit flags 4,
  bit_and-digit (flags / 2) 2,
  bit_and-digit (flags / 2 / 2) 1,
  bit_and-digit flags 8,
  bit_and-digit (flags / 2) 4,
  bit_and-digit (flags / 2 / 2) 2,
  bit_and-digit (flags / 2 / 2 / 2) 1,
  bit_and-digit flags 14,
  bit_and-digit (flags / 2) 7,
  bit_and-digit (flags / 2 / 2) 3,
  bit_and-digit (flags / 2 / 2 / 2) 1,
  bit_and-zero (flags / 2 / 2),
  bit_and-zero (flags / 2 / 2 / 2),
  bit_and-zero (flags / 2 / 2 / 2 / 2),
)

lifecycle_clear_iff :
    (flags : ℕ)
    → (intersects flags 14 ≡ false) ↔ ((bit flags 1 ≡ 0) × (bit flags 2 ≡ 0) × (bit flags 3 ≡ 0))
lifecycle_clear_iff flags =
    (λ e. ground (arith, masked_lifecycle flags), λ c. ground (arith, masked_lifecycle flags))

-- The tests of the evaluation that an admitted memory passes.
abbrev Passes : IdHash → IdHash → IdHash → IdHash → ℕ → EvaluationMask → Type 0
Passes tenant mem_tenant domain mem_domain flags mask =
    (bytes_eq mem_tenant tenant ≡ true)
    × (bytes_eq mem_domain domain ≡ true)
    × (intersects flags 14 ≡ false)
    × (intersects flags mask.prohibited_safety ≡ false)
    × (intersects flags mask.prohibited_use_blocks ≡ false)
    × (intersects flags mask.allowed_use_classes ≡ true)

module _ (tenant mem_tenant domain mem_domain : IdHash) (flags : ℕ) where
  Passes-of_use :
      (mask : EvaluationMask)
      → (evaluate_memory_hot_path tenant mem_tenant domain mem_domain flags mask).0 ≡ use_memory
      → Passes tenant mem_tenant domain mem_domain flags mask
  unfolding evaluate_memory_hot_path validate_tenant validate_domain
  Passes-of_use mask e = ground arith

  use_of_Passes :
      (mask : EvaluationMask)
      → Passes tenant mem_tenant domain mem_domain flags mask
      → evaluate_memory_hot_path tenant mem_tenant domain mem_domain flags mask
        ≡ (use_memory, reason_use)
  unfolding evaluate_memory_hot_path validate_tenant validate_domain
  use_of_Passes mask p = ground arith

  -- The evaluation admits a memory exactly when its tenant and its domain are the runtime's, no
  -- expired, deletion or revocation flag is set, no flag is a prohibited safety or use flag of the
  -- mask, and some flag is an allowed use class.
  pub evaluate-use_iff :
      (mask : EvaluationMask)
      → (evaluate_memory_hot_path tenant mem_tenant domain mem_domain flags mask
          ≡ (use_memory, reason_use))
        ↔ ((mem_tenant ≡ tenant)
            × (mem_domain ≡ domain)
            × (bit flags 1 ≡ 0)
            × (bit flags 2 ≡ 0)
            × (bit flags 3 ≡ 0)
            × (¬ SharesFlag flags mask.prohibited_safety)
            × (¬ SharesFlag flags mask.prohibited_use_blocks)
            × SharesFlag flags mask.allowed_use_classes)
  evaluate-use_iff mask =
      let lifecycle = lifecycle_clear_iff flags in
      (
        λ e.
            let (t, d, l, s, b, u) = Passes-of_use mask (ap (λ r. r.0) e) in
            let (one, two, three) = lifecycle.0 l in
            (
              (bytes_eq_iff _ _).0 t,
              (bytes_eq_iff _ _).0 d,
              one,
              two,
              three,
              not-intersects _ _ s,
              not-intersects _ _ b,
              (intersects_iff _ _).0 u,
            ),
        λ (t, d, one, two, three, s, b, u). use_of_Passes mask (
          (bytes_eq_iff _ _).1 t,
          (bytes_eq_iff _ _).1 d,
          lifecycle.1 (one, two, three),
          intersects-false _ _ s,
          intersects-false _ _ b,
          (intersects_iff _ _).1 u,
        ),
      )

  -- Within the tenant and the domain a lifecycle flag decides before any field of the mask, with
  -- deletion before expiry before revocation.
  pub evaluate_lifecycle :
      (mask : EvaluationMask)
      → mem_tenant ≡ tenant
      → mem_domain ≡ domain
      → (bit flags 2 ≡ 1
          → evaluate_memory_hot_path tenant mem_tenant domain mem_domain flags mask
            ≡ (delete_requested, reason_deletion_requested))
        × (bit flags 2 ≡ 0
            → bit flags 1 ≡ 1
            → evaluate_memory_hot_path tenant mem_tenant domain mem_domain flags mask
              ≡ (refresh, reason_memory_expired))
        × (bit flags 2 ≡ 0
            → bit flags 1 ≡ 0
            → bit flags 3 ≡ 1
            → evaluate_memory_hot_path tenant mem_tenant domain mem_domain flags mask
              ≡ (refuse, reason_memory_revoked))
  unfolding evaluate_memory_hot_path validate_tenant validate_domain
  evaluate_lifecycle mask t d =
      let same_tenant = (bytes_eq_iff mem_tenant tenant).1 t in
      let same_domain = (bytes_eq_iff mem_domain domain).1 d in
      (
        λ b. ground (arith, masked_lifecycle flags),
        λ a b. ground (arith, masked_lifecycle flags),
        λ a b c. ground (arith, masked_lifecycle flags),
      )

  -- A mask that prohibits no less and allows no more admits no memory that the first one keeps out.
  pub evaluate_mono :
      (mask stricter : EvaluationMask)
      → IsSubmask mask.prohibited_safety stricter.prohibited_safety
      → IsSubmask mask.prohibited_use_blocks stricter.prohibited_use_blocks
      → IsSubmask stricter.allowed_use_classes mask.allowed_use_classes
      → (evaluate_memory_hot_path tenant mem_tenant domain mem_domain flags stricter).0 ≡ use_memory
      → (evaluate_memory_hot_path tenant mem_tenant domain mem_domain flags mask).0 ≡ use_memory
  evaluate_mono mask stricter safety blocks uses e =
      let (t, d, l, s, b, u) = Passes-of_use stricter e in
      let (k, p, q) = (intersects_iff _ _).0 u in
      ap (λ r. r.0)
        (use_of_Passes mask (
          t,
          d,
          l,
          intersects-false _ _ (λ (i, x, y). not-intersects _ _ s (i, x, safety i y)),
          intersects-false _ _ (λ (i, x, y). not-intersects _ _ b (i, x, blocks i y)),
          (intersects_iff _ _).1 (k, p, uses k q),
        ))

  -- The lifecycle that a mask requires and its sensitivity limit take no part in the decision.
  pub evaluate-ignores_requirements :
      (mask : EvaluationMask) (required limit : ℕ)
      → evaluate_memory_hot_path tenant mem_tenant domain mem_domain flags
          (record mask { required_lifecycle = required; sensitivity_limit = limit })
        ≡ evaluate_memory_hot_path tenant mem_tenant domain mem_domain flags mask
  unfolding evaluate_memory_hot_path
  evaluate-ignores_requirements mask required limit = refl
