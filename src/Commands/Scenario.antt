-- ===== src/Commands/Scenario.antt =====
-- How the scenario of the commands ends.
use veraxis_memory_admissibi.Prelude.{
  true, false, ◌≡◌, ◌≢◌, refl, ap, ◌∙◌, none, some, List, [], ◌∷◌, length, modify, Bool-cases, inl,
  inr,
}
use veraxis_memory_admissibi.Prelude.Bytes.{Bytes, text, bytes_eq, bytes_eq_refl, bytes_eq_iff}
use veraxis_memory_admissibi.Platform.{Platform, IsGenerated, IsGenerated-length}
use veraxis_memory_admissibi.Tenant.{validate_tenant, validate_domain}
use veraxis_memory_admissibi.Evaluate.{
  use_memory, qualify, hard_refuse, evaluate_memory_hot_path, reason_use, decision_code,
  reason_tenant_mismatch,
}
use veraxis_memory_admissibi.Gateway.{
  leaf, on_content, Turn, LlmMessage, verdict, decide, qualify_use, injects, sanitize_content,
  annotate_constraints, sanitize_binding, sanitize_bindings, tombstone_hard_refuse,
}
use veraxis_memory_admissibi.Prelude.Int.{pos}
use veraxis_memory_admissibi.Prelude.Bytes.{zeros}
use veraxis_memory_admissibi.Prelude.Result.{ok}
use veraxis_memory_admissibi.Prelude.Time.{Time, hour}
use veraxis_memory_admissibi.SessionMap.{SessionMap, generate_session_map, sign_session_map}
use veraxis_memory_admissibi.SessionMap.Generate.{generated, generate_complete}
use veraxis_memory_admissibi.Audit.{verify_session_map_with_policy}
use veraxis_memory_admissibi.Audit.Verify.{verify-generate}
use veraxis_memory_admissibi.Gateway.{sanitize_context_window}
use veraxis_memory_admissibi.Gateway.Inference.Turns.{sanitize_context_window-ok}
use veraxis_memory_admissibi.Commands.{contains, has_prefix, any_contains}
use veraxis_memory_admissibi.Merkle.{LeafRecord}
use veraxis_memory_admissibi.Commands.{
  policy_of_2026, hash_text, cache_of, profiles, bindings, wrapper, valid_tenant, rogue_tenant,
  default_domain, id_of,
}
use veraxis_memory_admissibi.Commands.Harness.{
  incoming_messages, harness_turn, check_window, mock_provider_fails, seal_and_verify, harness_main,
}

module _ ⦃p : Platform⦄ where
  -- The two tenants of the scenario have different hashes.
  abbrev pub TenantsDiffer : Type 0
  TenantsDiffer = rogue_tenant ≢ valid_tenant

  pub rogue_refused : TenantsDiffer → bytes_eq rogue_tenant valid_tenant ≡ false
  rogue_refused differ = elim (Bool-cases (bytes_eq rogue_tenant valid_tenant)) [
    | inl same ↦ absurd (differ ((bytes_eq_iff rogue_tenant valid_tenant).0 same))
    | inr other ↦ other
  ]

  -- What the three memories are judged: use, use under constraints, and refusal.
  abbrev pub Judged : Turn → Type 0
  Judged t =
      (verdict none t (id_of 1) (cache_of profiles (id_of 1)) ≡ (use_memory, reason_use))
      × (verdict none t (id_of 2) (cache_of profiles (id_of 2))
          ≡ (qualify, text "QUALIFIED_USE_ONLY"))
      × (verdict none t (id_of 3) (cache_of profiles (id_of 3))
          ≡ (hard_refuse, reason_tenant_mismatch))

  harness_turn-Judged : TenantsDiffer → Judged harness_turn
  unfolding verdict decide qualify_use evaluate_memory_hot_path validate_tenant validate_domain
      cache_of decision_code bytes_eq text
  harness_turn-Judged differ =
      simp (bytes_eq_refl valid_tenant, bytes_eq_refl default_domain, rogue_refused differ)
        (refl, refl, refl)

  -- The window and the leaves of a turn that judges so.
  abbrev pub sanitized_window : List LlmMessage → List LlmMessage
  sanitized_window messages =
      modify
        (modify messages 2 (
          on_content (λ c.
            annotate_constraints c
              (text "may be used for tone/context only; prohibited for automated denial"))))
        3 (on_content (λ c. tombstone_hard_refuse))

  abbrev pub scenario_leaves : List LeafRecord
  scenario_leaves =
      leaf policy_of_2026
        (record { memory_id = id_of 1; memory_hash = hash_text (text "good"); message_idx = pos 1 })
        use_memory true reason_use
      ∷ leaf policy_of_2026
          (record {
            memory_id = id_of 2;
            memory_hash = hash_text (text "qual");
            message_idx = pos 2;
          })
          qualify true (text "QUALIFIED_USE_ONLY")
      ∷ leaf policy_of_2026
          (record {
            memory_id = id_of 3;
            memory_hash = hash_text (text "rogue");
            message_idx = pos 3;
          })
          hard_refuse false reason_tenant_mismatch
      ∷ []

  pub sanitized :
      (t : Turn) (a b c d : LlmMessage)
      → Judged t
      → sanitize_bindings wrapper (cache_of profiles) t (a ∷ b ∷ c ∷ d ∷ []) bindings
        ≡ (sanitized_window (a ∷ b ∷ c ∷ d ∷ []), scenario_leaves)
  unfolding sanitize_bindings sanitize_binding sanitize_content injects cache_of bytes_eq text
  sanitized t a b c d (good, qualified, rogue) = simp (good, qualified, rogue) refl

  harness_window :
      TenantsDiffer
      → sanitize_context_window false (some wrapper) harness_turn incoming_messages bindings
        ≡ ok (sanitized_window incoming_messages, scenario_leaves)
  harness_window differ =
      sanitize_context_window-ok wrapper (cache_of profiles) harness_turn incoming_messages bindings
        refl
      ∙ ap ok (sanitized harness_turn _ _ _ _ (harness_turn-Judged differ))

  harness_checks : check_window (sanitized_window incoming_messages) scenario_leaves ≡ ok tt
  unfolding check_window contains has_prefix annotate_constraints leaf bytes_eq text
  harness_checks = refl

  harness_strips : mock_provider_fails (sanitized_window incoming_messages) ≡ false
  unfolding mock_provider_fails any_contains contains has_prefix annotate_constraints bytes_eq text
  harness_strips = refl

  harness_raw : mock_provider_fails incoming_messages ≡ true
  unfolding mock_provider_fails any_contains contains has_prefix text
  harness_raw = refl

  abbrev harness_map : Bytes → Time → SessionMap
  harness_map key now =
      generated (id_of 100) (text "session_test_01") (text "agent_support_alpha")
        (text "actor_user_99") (text "task_refund_check") valid_tenant
        (hash_text (text "runtime_context_fingerprint")) policy_of_2026 (zeros 32) 0 scenario_leaves
        key (text "key_id_harness_01") hour now

  harness_generates :
      (key : Bytes) (now : Time)
      → length key ≡ 64
      → generate_session_map
          (id_of 100)
          (text "session_test_01")
          (text "agent_support_alpha")
          (text "actor_user_99")
          (text "task_refund_check")
          valid_tenant
          (hash_text (text "runtime_context_fingerprint"))
          policy_of_2026
          scenario_leaves
          key
          (text "key_id_harness_01")
          hour
          now
        ≡ ok (harness_map key now)
  unfolding generate_session_map
  harness_generates key now sized =
      generate_complete (id_of 100) (text "session_test_01") (text "agent_support_alpha")
        (text "actor_user_99") (text "task_refund_check") valid_tenant
        (hash_text (text "runtime_context_fingerprint")) policy_of_2026 (zeros 32) 0 scenario_leaves
        key (text "key_id_harness_01") hour now refl sized refl

  harness_seals :
      (key : Bytes) (now : Time)
      → IsGenerated key
      → seal_and_verify (p.ed25519_public key) key scenario_leaves now ≡ ok tt
  unfolding seal_and_verify verify_session_map_with_policy generate_session_map sign_session_map
  harness_seals key now generated =
      let made = harness_generates key now (IsGenerated-length key generated) in
      let verified =
        verify-generate (id_of 100) (text "session_test_01") (text "agent_support_alpha")
          (text "actor_user_99") (text "task_refund_check") valid_tenant
          (hash_text (text "runtime_context_fingerprint")) policy_of_2026 (zeros 32) 0
          scenario_leaves key (text "key_id_harness_01") hour now (harness_map key now) generated
          made in
      simp (made, bytes_eq_refl policy_of_2026, verified) refl

  -- The harness exits with success, at whatever time, with any key pair of ed25519, when SHA-256
  -- tells the names of its two tenants apart.
  pub harness_succeeds :
      (key : Bytes) (now : Time)
      → TenantsDiffer
      → IsGenerated key
      → harness_main (some (p.ed25519_public key, key)) now ≡ ok tt
  unfolding harness_main
  harness_succeeds key now differ generated =
      simp
        (
          harness_window differ,
          harness_checks,
          harness_strips,
          harness_raw,
          harness_seals key now generated,
        )
        refl
