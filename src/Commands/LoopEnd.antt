-- ===== src/Commands/LoopEnd.antt =====
-- How the client loop ends.
use veraxis_memory_admissibi.Prelude.{
  false, ◌≡◌, refl, ap, some, length, Bool-cases, inl, inr, if◌then◌else◌,
}
use veraxis_memory_admissibi.Prelude.Int.{pos}
use veraxis_memory_admissibi.Prelude.Bytes.{Bytes, text, bytes_eq, bytes_eq_refl, zeros}
use veraxis_memory_admissibi.Prelude.Result.{ok}
use veraxis_memory_admissibi.Prelude.Time.{Time, is_zero}
use veraxis_memory_admissibi.Platform.{Platform, IsGenerated, IsGenerated-length}
use veraxis_memory_admissibi.Tenant.{validate_tenant, validate_domain}
use veraxis_memory_admissibi.Evaluate.{evaluate_memory_hot_path, decision_code}
use veraxis_memory_admissibi.SessionMap.{sign_session_map}
use veraxis_memory_admissibi.Audit.{verify_session_map, verify_session_map_with_policy}
use veraxis_memory_admissibi.Audit.Verify.{accepted}
use veraxis_memory_admissibi.Gateway.{
  ClientWrapper, Turn, verdict, decide, qualify_use, sanitize_bindings, annotate_constraints,
}
use veraxis_memory_admissibi.Gateway.Adapters.{open_ai_convert}
use veraxis_memory_admissibi.Gateway.Inference.{
  mock_invoke, policy_in_force, with_defaults, turn_of, execute_admissible_turn, Outcome,
}
use veraxis_memory_admissibi.Gateway.Inference.Types.{AdmissibleInferenceBlock, ProviderResponse}
use veraxis_memory_admissibi.Gateway.Inference.Turns.{execute-verify}
use veraxis_memory_admissibi.Gateway.Inference.Completion.{execute_completes, turn_map}
use veraxis_memory_admissibi.Commands.{
  cache_of, profiles, bindings, wrapper, valid_tenant, default_domain, policy_of_2026, contains,
  has_prefix,
}
use veraxis_memory_admissibi.Commands.ClientLoop.{
  loop_messages, loop_params, loop_runner, leaks, check_turn, client_loop_main,
}
use veraxis_memory_admissibi.Commands.Scenario.{TenantsDiffer, rogue_refused, Judged, sanitized}

module _ ⦃p : Platform⦄ (key : Bytes) (now clock later : Time) where
  abbrev loop_turn : Turn
  loop_turn = turn_of (loop_params key now)

  loop_turn-Judged : TenantsDiffer → Judged loop_turn
  unfolding verdict decide qualify_use evaluate_memory_hot_path validate_tenant validate_domain
      cache_of decision_code bytes_eq text
  loop_turn-Judged differ =
      simp (bytes_eq_refl valid_tenant, bytes_eq_refl default_domain, rogue_refused differ)
        (refl, refl, refl)

  abbrev loop_response : ProviderResponse
  loop_response = record {
    response = text "Processed application query cleanly based on authorized memory states.";
    tokens = record { prompt_tokens = pos 256; completion_tokens = pos 32; total_tokens = pos 288 };
  }

  abbrev loop_outcome : Outcome
  loop_outcome =
      execute_admissible_turn clock later (some loop_runner) loop_messages bindings
        (loop_params key now)

  abbrev loop_block : AdmissibleInferenceBlock
  loop_block = record {
    inference_id = text "inf_local_0001";
    model_name = text "gpt-4o";
    response_text = loop_response.response;
    usage_tokens = loop_response.tokens;
    session_map =
        turn_map wrapper (with_defaults clock (loop_params key now))
          (sanitize_bindings wrapper (cache_of profiles) loop_turn loop_messages bindings).1;
    completed_at =
        if is_zero (with_defaults clock (loop_params key now)).now
        then later
        else (with_defaults clock (loop_params key now)).now;
  }

  loop_completes :
      length key ≡ 64
      → loop_outcome ≡ (
        ok loop_block,
        open_ai_convert
            (text "gpt-4o")
            (sanitize_bindings wrapper (cache_of profiles) loop_turn loop_messages bindings).0,
      )
  unfolding mock_invoke bytes_eq text
  loop_completes sized =
      execute_completes clock later wrapper (record { adapter_model = text "gpt-4o" })
        (mock_invoke loop_response) (cache_of profiles) (loop_params key now) loop_messages bindings
        loop_response sized refl refl (λ e. cc) refl

  loop_verified :
      IsGenerated key
      → verify_session_map (p.ed25519_public key) loop_block.session_map ≡ ok accepted
  loop_verified generated =
      (execute-verify clock later wrapper (record { adapter_model = text "gpt-4o" })
        (mock_invoke loop_response) (cache_of profiles) (loop_params key now) loop_messages bindings
        loop_block refl generated
        (ap (λ o. o.0) (loop_completes (IsGenerated-length key generated)))).0

  own_policy : (w : ClientWrapper) → policy_in_force w w.policy_hash ≡ w.policy_hash
  unfolding policy_in_force
  own_policy w = elim (Bool-cases (bytes_eq w.policy_hash (zeros 32))) [
    | inl unset ↦ rw unset refl
    | inr set ↦ rw set refl
  ]

  loop_policy : loop_block.session_map.policy_snapshot_hash ≡ policy_of_2026
  unfolding sign_session_map with_defaults
  loop_policy = own_policy wrapper

  loop_clean :
      TenantsDiffer
      → leaks
          (open_ai_convert
            (text "gpt-4o")
            (sanitize_bindings wrapper
              (cache_of profiles)
              loop_turn
              loop_messages
              bindings).0).messages
        ≡ false
  unfolding leaks contains has_prefix open_ai_convert annotate_constraints text bytes_eq
  loop_clean differ = rw (sanitized loop_turn _ _ _ _ (loop_turn-Judged differ)) refl

  -- The client loop ends with success, at whatever times, with any key pair of ed25519, when SHA-256
  -- tells the names of its two tenants apart.
  pub client_loop_succeeds :
      TenantsDiffer
      → IsGenerated key
      → client_loop_main (some (p.ed25519_public key, key)) now clock later ≡ ok tt
  unfolding client_loop_main check_turn verify_session_map_with_policy
  client_loop_succeeds differ generated =
      simp
        (
          loop_completes (IsGenerated-length key generated),
          loop_clean differ,
          loop_policy,
          bytes_eq_refl policy_of_2026,
          loop_verified generated,
        )
        refl
