-- ===== src/Gateway/Kept.antt =====
-- What the sanitised window holds in place of a message that one binding refers to.
use mathlib.Core.List.{Mem, mem-cons_self, mem-cons_of_mem}
use veraxis_memory_admissibi.Prelude.{
  ℕ, zero, suc, ◌≡◌, ◌≢◌, ◌++◌, ◌⊎◌, inl, inr, refl, ap, ◌∙◌, false, leb, Option, some, none, List,
  [], ◌∷◌, arith, length, get_elem?, All, get_elem?-modify_self, Bool-cases,
}
use veraxis_memory_admissibi.Prelude.Bytes.{Bytes, GoString, text, bytes_eq}
use veraxis_memory_admissibi.Prelude.Int.{pos}
use veraxis_memory_admissibi.Platform.{Platform}
use veraxis_memory_admissibi.Evaluate.{
  Decision, use_memory, qualify, refresh, escalate, refuse, ignore, quarantine, delete_requested,
  hard_refuse, reason_use, decision_code, evaluate_memory_hot_path,
}
use veraxis_memory_admissibi.Quarantine.Monitor
use veraxis_memory_admissibi.Quarantine.Monitor.{RuntimeMonitor}
use veraxis_memory_admissibi.Gateway.{
  LlmMessage, MemoryContextBinding, MemoryProfile, ProfileCache, ClientWrapper, Turn, decide,
  qualify_use, verdict, injects, sanitize_content, annotate_constraints, on_content, constraints_of,
  sanitize_binding, sanitize_bindings,
}
use veraxis_memory_admissibi.Gateway.Verdict.{
  IsClear, verdict-injects_iff, same_tenant, same_domain, is_use_iff,
}
use veraxis_memory_admissibi.Gateway.Window.{decision_of, round, round-other, sanitize-unbound}

-- The texts that stand for a memory that is withheld.
abbrev pub tombstones : List GoString
tombstones =
    text "[VERAXIS: MEMORY_REFRESH_REQUIRED - CONTENT_STRIPPED]"
    ∷ text "[VERAXIS: MEMORY_ESCALATION_REQUIRED - CONTENT_STRIPPED]"
    ∷ text "[VERAXIS: MEMORY_ADMISSIBILITY_DENIED - CONTENT_STRIPPED]"
    ∷ text "[VERAXIS: MEMORY_IGNORED - CONTENT_STRIPPED]"
    ∷ text "[VERAXIS: MEMORY_QUARANTINED - CONTENT_STRIPPED]"
    ∷ text "[VERAXIS: MEMORY_DELETION_REQUESTED - CONTENT_STRIPPED]"
    ∷ text "[VERAXIS: HARD_REFUSE_BOUNDARY_VIOLATION - CONTENT_STRIPPED]"
    ∷ []

-- A content that stays, behind the constraints of its use where there are some.
unfoldable pub under_constraints : GoString → GoString → GoString
under_constraints [] content = content
under_constraints (c ∷ cs) content =
    text "[VERAXIS QUALIFIED MEMORY: " ++ ((c ∷ cs) ++ ((text "]" ++ (10 ∷ [])) ++ content))

-- The profile is of the turn's tenant and domain, the runtime monitor does not block the memory, and
-- the evaluation of the profile's flags permits its use.
abbrev pub IsPermitted : Option RuntimeMonitor → Turn → Bytes → MemoryProfile → Type 0
IsPermitted monitor turn id profile =
    (profile.tenant_hash ≡ turn.runtime_tenant)
    × (profile.domain_hash ≡ turn.runtime_domain)
    × IsClear monitor id
    × (evaluate_memory_hot_path turn.runtime_tenant profile.tenant_hash turn.runtime_domain
          profile.domain_hash profile.flags turn.mask
        ≡ (use_memory, reason_use))

decide-permitted :
    (monitor : Option RuntimeMonitor) (turn : Turn) (id : Bytes) (profile : MemoryProfile)
    → IsPermitted monitor turn id profile
    → decide monitor turn id profile ≡ (use_memory, reason_use)
unfolding decide
decide-permitted none turn id profile (tenant, domain, _, used) =
    rw
      (
        (same_tenant profile.tenant_hash turn.runtime_tenant).1 tenant,
        (same_domain profile.domain_hash turn.runtime_domain).1 domain,
      )
      used
decide-permitted (some m) turn id profile (tenant, domain, clear, used) =
    rw
      (
        (same_tenant profile.tenant_hash turn.runtime_tenant).1 tenant,
        (same_domain profile.domain_hash turn.runtime_domain).1 domain,
        (is_use_iff (Monitor.lookup m id).decision).1 clear,
      )
      used

qualified-content :
    (constraints reason content : GoString)
    → sanitize_content (qualify_use constraints (use_memory, reason)).0 constraints content
      ≡ under_constraints constraints content
unfolding qualify_use sanitize_content under_constraints annotate_constraints bytes_eq decision_code
qualified-content [] reason content = refl
qualified-content (c ∷ cs) reason content = refl

withheld-tombstone :
    (d : Decision) (constraints content : GoString)
    → injects d ≡ false
    → Mem (sanitize_content d constraints content) tombstones
unfolding injects sanitize_content
withheld-tombstone use_memory constraints content h = absurd (cc)
withheld-tombstone qualify constraints content h = absurd (cc)
withheld-tombstone refresh constraints content h = mem-cons_self
withheld-tombstone escalate constraints content h = mem-cons_of_mem _ mem-cons_self
withheld-tombstone refuse constraints content h =
    mem-cons_of_mem _ (mem-cons_of_mem _ mem-cons_self)
withheld-tombstone ignore constraints content h =
    mem-cons_of_mem _ (mem-cons_of_mem _ (mem-cons_of_mem _ mem-cons_self))
withheld-tombstone quarantine constraints content h =
    mem-cons_of_mem _ (mem-cons_of_mem _ (mem-cons_of_mem _ (mem-cons_of_mem _ mem-cons_self)))
withheld-tombstone delete_requested constraints content h =
    mem-cons_of_mem _
      (mem-cons_of_mem _ (mem-cons_of_mem _ (mem-cons_of_mem _ (mem-cons_of_mem _ mem-cons_self))))
withheld-tombstone hard_refuse constraints content h = mem-cons_of_mem _ (
    mem-cons_of_mem _
      (mem-cons_of_mem _ (mem-cons_of_mem _ (mem-cons_of_mem _ (mem-cons_of_mem _ mem-cons_self)))))

within_range :
    {A : Type 0} (xs : List A) (i : ℕ) (a : A) → get_elem? xs i ≡ some a → leb (length xs) i ≡ false
within_range [] i a h = absurd (cc)
within_range (x ∷ xs) zero a h = ground arith
within_range (x ∷ xs) (suc i) a h = ground (arith, within_range xs i a h)

module _ ⦃p : Platform⦄ (w : ClientWrapper) (profiles : ProfileCache) (turn : Turn) where
  -- What a binding makes of the content of its message.
  abbrev rewritten : MemoryContextBinding → GoString → GoString
  rewritten b =
      sanitize_content (decision_of w profiles turn b) (constraints_of (profiles b.memory_id))

  round-bound :
      (i : ℕ) (b : MemoryContextBinding) (xs : List LlmMessage) (m : LlmMessage)
      → b.message_idx ≡ pos i
      → get_elem? xs i ≡ some m
      → get_elem? (round w profiles turn b xs) i ≡ some (on_content (rewritten b) m)
  unfolding sanitize_binding
  round-bound i b xs m at_i there =
      rw (round, at_i, within_range xs i m there)
        (get_elem?-modify_self xs i (on_content (rewritten b)) m there)

  sanitize-bound :
      (i : ℕ) (before : List MemoryContextBinding) (b : MemoryContextBinding)
      (after : List MemoryContextBinding) (xs : List LlmMessage) (m : LlmMessage)
      → b.message_idx ≡ pos i
      → All (λ a. a.message_idx ≢ pos i) before
      → All (λ a. a.message_idx ≢ pos i) after
      → get_elem? xs i ≡ some m
      → get_elem? (sanitize_bindings w profiles turn xs (before ++ b ∷ after)).0 i
        ≡ some (on_content (rewritten b) m)
  unfolding sanitize_bindings
  sanitize-bound i [] b after xs m at_i _ others there =
      sanitize-unbound w profiles turn i after (round w profiles turn b xs) others
      ∙ round-bound i b xs m at_i there
  sanitize-bound i (a ∷ before) b after xs m at_i (other, rest) others there =
      sanitize-bound i before b after (round w profiles turn a xs) m at_i rest others
        (round-other w profiles turn i a xs other ∙ there)

  kept-content :
      (b : MemoryContextBinding) (profile : MemoryProfile) (content : GoString)
      → profiles b.memory_id ≡ some profile
      → IsPermitted w.runtime_monitor turn b.memory_id profile
      → rewritten b content ≡ under_constraints profile.usage_constraints content
  unfolding verdict
  kept-content b profile content found permitted =
      let used = decide-permitted w.runtime_monitor turn b.memory_id profile permitted in
      ap
        (λ q.
          sanitize_content (verdict w.runtime_monitor turn b.memory_id q).0 (constraints_of q)
            content)
        found
      ∙ ap
          (λ d.
            sanitize_content (qualify_use profile.usage_constraints d).0 profile.usage_constraints
              content)
          used
      ∙ qualified-content profile.usage_constraints reason_use content

  -- A message that exactly one binding refers to is kept exactly when the profile of the binding's
  -- memory is known, is of the turn's tenant and domain, the runtime monitor does not block the memory,
  -- and the evaluation of its flags permits its use: then the sanitised window has the message with its
  -- content, behind the constraints of the profile where it has some; otherwise it has the message with
  -- one of the seven tombstones for its content.
  pub sanitize-kept :
      (i : ℕ) (before : List MemoryContextBinding) (b : MemoryContextBinding)
      (after : List MemoryContextBinding) (xs : List LlmMessage) (m : LlmMessage)
      → b.message_idx ≡ pos i
      → All (λ a. a.message_idx ≢ pos i) before
      → All (λ a. a.message_idx ≢ pos i) after
      → get_elem? xs i ≡ some m
      → ((profile : MemoryProfile) × (profiles b.memory_id ≡ some profile)
          × IsPermitted w.runtime_monitor turn b.memory_id profile
          × (get_elem? (sanitize_bindings w profiles turn xs (before ++ b ∷ after)).0 i
              ≡ some
                  (record m { content = under_constraints profile.usage_constraints m.content })))
        ⊎ ((¬ (
              (profile : MemoryProfile) × (profiles b.memory_id ≡ some profile)
              × IsPermitted w.runtime_monitor turn b.memory_id profile))
            × ((stub : GoString) × Mem stub tombstones
                × (get_elem? (sanitize_bindings w profiles turn xs (before ++ b ∷ after)).0 i
                    ≡ some (record m { content = stub }))))
  sanitize-kept i before b after xs m at_i earlier later there =
      let changed = sanitize-bound i before b after xs m at_i earlier later there in
      let judged = verdict-injects_iff w.runtime_monitor turn b.memory_id (profiles b.memory_id) in
      elim (Bool-cases (injects (decision_of w profiles turn b))) [
        | inl kept ↦
            let (profile, found, tenant, domain, clear, used) = judged.0 kept in
            let same = kept-content b profile m.content found (tenant, domain, clear, used) in
            inl (
              profile,
              found,
              (tenant, domain, clear, used),
              changed ∙ ap (λ t. some (record m { content = t })) same,
            )
        | inr withheld ↦ inr (
          λ (profile, found, (tenant, domain, clear, used)).
              absurd (cc (withheld, judged.1 (profile, found, tenant, domain, clear, used))),
          (
            rewritten b m.content,
            withheld-tombstone (decision_of w profiles turn b) _ m.content withheld,
            changed,
          ),
        )
      ]
