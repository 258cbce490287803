-- ===== src/Gateway/Verdict.antt =====
-- When a bound memory stays in the window.
use mathlib.Core.Path.{subst}
use veraxis_memory_admissibi.Prelude.{
  ◌≡◌, ◌≢◌, ◌↔◌, inl, inr, refl, sym, ap, ◌∙◌, Bool, true, false, not, ◌&&◌, Option, none, some, [],
  arith, Bool-cases, Option-cases, if◌then◌else◌,
}
use veraxis_memory_admissibi.Prelude.Bytes.{Bytes, GoString, bytes_eq, bytes_eq_iff}
use veraxis_memory_admissibi.Tenant.{IdHash, validate_tenant, validate_domain}
use veraxis_memory_admissibi.Evaluate.{
  Decision, use_memory, decision_code, evaluate_memory_hot_path, reason_use, refuse, hard_refuse,
  reason_tenant_mismatch, reason_domain_mismatch,
}
use veraxis_memory_admissibi.Quarantine.Monitor
use veraxis_memory_admissibi.Quarantine.Monitor.{RuntimeMonitor}
use veraxis_memory_admissibi.Quarantine.Snapshot.{Blocks, lookup_blocks, lookup_with_snapshot}
use veraxis_memory_admissibi.Gateway.{
  MemoryProfile, Turn, decide, qualify_use, verdict, injects, is_use,
}

-- The evaluation of a profile in a turn.
abbrev evaluated : Turn → MemoryProfile → Decision × GoString
evaluated turn profile =
    evaluate_memory_hot_path turn.runtime_tenant profile.tenant_hash turn.runtime_domain
      profile.domain_hash profile.flags turn.mask

-- The runtime monitor, where there is one, has no objection to the memory.
abbrev pub IsClear : Option RuntimeMonitor → Bytes → Type 0
IsClear none id = Unit
IsClear (some m) id = (Monitor.lookup m id).decision ≡ use_memory

evaluated-injects :
    (turn : Turn) (profile : MemoryProfile)
    → injects (evaluated turn profile).0 ≡ true
    → evaluated turn profile ≡ (use_memory, reason_use)
unfolding evaluate_memory_hot_path injects
evaluated-injects turn profile h = ground arith

lookup_blocks-injects :
    (b : Blocks) (id : Bytes)
    → injects (lookup_blocks b id).decision ≡ true
    → (lookup_blocks b id).decision ≡ use_memory
unfolding lookup_blocks injects
lookup_blocks-injects b id h = ground arith

lookup-injects :
    (m : RuntimeMonitor) (id : Bytes)
    → injects (Monitor.lookup m id).decision ≡ true
    → (Monitor.lookup m id).decision ≡ use_memory
unfolding Monitor.lookup lookup_with_snapshot
lookup-injects m id h = elim (Option-cases m.snapshot) [
  | inl unset ↦ rw (unset) refl
  | inr (snap, active) ↦ rw (active) (lookup_blocks-injects snap.blocks id (rw active at h))
]

two_tests :
    (a b : Bool) (r s : GoString) (e : Decision × GoString)
    → (injects (if not a then (hard_refuse, r) else if not b then (refuse, s) else e).0 ≡ true)
      ↔ ((a ≡ true) × (b ≡ true) × (injects e.0 ≡ true))
unfolding injects
two_tests true true r s e = (λ h. (refl, refl, h), λ (_, _, h). h)
two_tests true false r s e = (λ h. absurd (cc), λ (_, h, _). absurd (cc))
two_tests false b r s e = (λ h. absurd (cc), λ (h, _, _). absurd (cc))

pub is_use_iff : (d : Decision) → (is_use d ≡ true) ↔ (d ≡ use_memory)
unfolding decision_code
is_use_iff d = ground arith

monitor_test :
    (d : Decision) (r : GoString) (e : Decision × GoString)
    → (injects d ≡ true → d ≡ use_memory)
    → (injects (if not (is_use d) then (d, r) else e).0 ≡ true)
      ↔ ((d ≡ use_memory) × (injects e.0 ≡ true))
monitor_test d r e h = elim (Bool-cases (is_use d)) [
  | inl used ↦ (λ k. ((is_use_iff d).0 used, rw used at k), λ (_, k). rw used k)
  | inr other ↦ (
    λ k. absurd (cc (other, (is_use_iff d).1 (h (rw other at k)))),
    λ (k, _). absurd (cc (other, (is_use_iff d).1 k)),
  )
]

evaluated-injects_iff :
    (turn : Turn) (profile : MemoryProfile)
    → (injects (evaluated turn profile).0 ≡ true)
      ↔ (evaluated turn profile ≡ (use_memory, reason_use))
unfolding injects
evaluated-injects_iff turn profile = (evaluated-injects turn profile, λ h. ap (λ e. injects e.0) h)

pub same_tenant : (a b : IdHash) → (validate_tenant a b ≡ true) ↔ (a ≡ b)
unfolding validate_tenant
same_tenant a b = bytes_eq_iff a b

pub same_domain : (a b : IdHash) → (validate_domain a b ≡ true) ↔ (a ≡ b)
unfolding validate_domain
same_domain a b = bytes_eq_iff a b

decide-injects :
    (monitor : Option RuntimeMonitor) (turn : Turn) (id : Bytes) (profile : MemoryProfile)
    → (injects (decide monitor turn id profile).0 ≡ true) ↔ (
        (profile.tenant_hash ≡ turn.runtime_tenant)
        × (profile.domain_hash ≡ turn.runtime_domain)
        × IsClear monitor id
        × (evaluated turn profile ≡ (use_memory, reason_use)))
unfolding decide
decide-injects none turn id profile =
    let tests =
      two_tests (validate_tenant profile.tenant_hash turn.runtime_tenant)
        (validate_domain profile.domain_hash turn.runtime_domain) reason_tenant_mismatch
        reason_domain_mismatch (evaluated turn profile) in
    let tenant = same_tenant profile.tenant_hash turn.runtime_tenant in
    let domain = same_domain profile.domain_hash turn.runtime_domain in
    let permitted = evaluated-injects_iff turn profile in
    (
      λ h. let (a, b, c) = tests.0 h in (tenant.0 a, domain.0 b, tt, permitted.0 c),
      λ (a, b, _, c). tests.1 (tenant.1 a, domain.1 b, permitted.1 c),
    )
decide-injects (some m) turn id profile =
    let runtime = Monitor.lookup m id in
    let tests =
      two_tests (validate_tenant profile.tenant_hash turn.runtime_tenant)
        (validate_domain profile.domain_hash turn.runtime_domain) reason_tenant_mismatch
        reason_domain_mismatch
        (if not (is_use runtime.decision)
          then (runtime.decision, runtime.reason)
          else evaluated turn profile) in
    let clear =
      monitor_test runtime.decision runtime.reason (evaluated turn profile) (lookup-injects m id) in
    let tenant = same_tenant profile.tenant_hash turn.runtime_tenant in
    let domain = same_domain profile.domain_hash turn.runtime_domain in
    let permitted = evaluated-injects_iff turn profile in
    (
      λ h.
          let (a, b, c) = tests.0 h in
          let (u, v) = clear.0 c in (tenant.0 a, domain.0 b, u, permitted.0 v),
      λ (a, b, u, v). tests.1 (tenant.1 a, domain.1 b, clear.1 (u, permitted.1 v)),
    )

qualify_use-injects :
    (constraints : GoString) (e : Decision × GoString)
    → injects (qualify_use constraints e).0 ≡ injects e.0
unfolding qualify_use injects
qualify_use-injects constraints (d, r) =
    elim (Bool-cases (is_use d && not (bytes_eq constraints []))) [
      | inl qualified ↦
          let used : d ≡ use_memory = (is_use_iff d).0 (ground (arith, qualified)) in
          rw (qualified, used) refl
      | inr other ↦ rw (other) refl
    ]

no_profile : injects hard_refuse ≢ true
unfolding injects
no_profile h = cc

some_inj : (a b : MemoryProfile) → some a ≡ some b → a ≡ b
some_inj a b h = cc

-- A bound memory stays in the window exactly when its profile is known, is of the turn's tenant and
-- domain, the runtime monitor does not block it, and the evaluation of its flags permits its use.
pub verdict-injects_iff :
    (monitor : Option RuntimeMonitor) (turn : Turn) (id : Bytes) (found : Option MemoryProfile)
    → (injects (verdict monitor turn id found).0 ≡ true) ↔ (
        (profile : MemoryProfile) × (found ≡ some profile)
        × (profile.tenant_hash ≡ turn.runtime_tenant)
        × (profile.domain_hash ≡ turn.runtime_domain)
        × IsClear monitor id
        × (evaluate_memory_hot_path turn.runtime_tenant profile.tenant_hash turn.runtime_domain
              profile.domain_hash profile.flags turn.mask
            ≡ (use_memory, reason_use)))
unfolding verdict
verdict-injects_iff monitor turn id none =
    (λ h. absurd (no_profile h), λ (profile, h, _, _, _, _). absurd (cc))
verdict-injects_iff monitor turn id (some profile) =
    let same = qualify_use-injects profile.usage_constraints (decide monitor turn id profile) in
    let judged = decide-injects monitor turn id profile in
    (
      λ h. let (a, b, c, d) = judged.0 (sym same ∙ h) in (profile, refl, a, b, c, d),
      λ (q, eq, a, b, c, d).
          let own = some_inj profile q eq in
          same
          ∙ subst (λ x. injects (decide monitor turn id x).0 ≡ true) (sym own)
              ((decide-injects monitor turn id q).1 (a, b, c, d)),
    )
