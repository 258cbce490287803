-- ===== src/Commands/Staging/Sanitised.antt =====
-- The windows of the staging verification: the clean one before the drill and the poisoned one after
-- it.
use veraxis_memory_admissibi.Prelude.{◌≡◌, refl, false, some, [], ◌∷◌}
use veraxis_memory_admissibi.Prelude.Bytes.{text, bytes_eq}
use veraxis_memory_admissibi.Prelude.Dict
use veraxis_memory_admissibi.Platform.{Platform}
use veraxis_memory_admissibi.Tenant.{validate_tenant, validate_domain}
use veraxis_memory_admissibi.Evaluate.{
  use_memory, quarantine, evaluate_memory_hot_path, decision_code,
}
use veraxis_memory_admissibi.Quarantine.Monitor.{RuntimeMonitor, lookup, swap_active_snapshot}
use veraxis_memory_admissibi.Quarantine.Snapshot.{
  compile_snapshot, apply_events, apply_event, apply_type, quarantine_entry, lookup_blocks,
  lookup_with_snapshot,
}
use veraxis_memory_admissibi.Gateway.{
  sanitize_bindings, sanitize_binding, sanitize_content, verdict, decide, qualify_use,
  tombstone_quarantine,
}
use veraxis_memory_admissibi.Orchestrator.{turn_of}
use veraxis_memory_admissibi.Axis.Types.{Floats}
use veraxis_memory_admissibi.Commands.{cache_of, contains, any_contains, has_prefix}
use veraxis_memory_admissibi.Commands.Staging.{
  controlled_invoke, raw_bypass_detected, batches_contain,
}
use veraxis_memory_admissibi.Commands.Staging.Fixture.{
  clean_memory_id, poison_memory_id, staging_profiles, staging_wrapper, user, clean_messages,
  verify_handoff, drill_handoff, raw_poison, new_provider,
}
use veraxis_memory_admissibi.Commands.Staging.World.{World}
use veraxis_memory_admissibi.Commands.Staging.Checks.{record_windows}
use veraxis_memory_admissibi.Commands.Staging.Seeded.{seeded_monitor}

module _ ⦃p : Platform⦄ where
  pub clean-used :
      ⦃f : Floats⦄ (w : World) → (lookup (seeded_monitor w) clean_memory_id).decision ≡ use_memory
  unfolding lookup swap_active_snapshot compile_snapshot apply_events apply_event apply_type
      quarantine_entry lookup_blocks lookup_with_snapshot bytes_eq Dict.get Dict.put
  clean-used w = refl

  module _ (m : RuntimeMonitor) where
    -- A clean memory that is in use stays as it is.
    pub clean_window :
        (lookup m clean_memory_id).decision ≡ use_memory
        → (sanitize_bindings
            (staging_wrapper (some m))
            (cache_of staging_profiles)
            (turn_of verify_handoff)
            verify_handoff.raw_scratchpad
            verify_handoff.bindings).0
          ≡ clean_messages
    unfolding sanitize_bindings sanitize_binding sanitize_content verdict decide qualify_use
        evaluate_memory_hot_path validate_tenant validate_domain cache_of decision_code bytes_eq
    clean_window used = simp (used) refl

    -- A quarantined one is replaced by its tombstone.
    pub poison_window :
        (lookup m poison_memory_id).decision ≡ quarantine
        → (sanitize_bindings
            (staging_wrapper (some m))
            (cache_of staging_profiles)
            (turn_of drill_handoff)
            drill_handoff.raw_scratchpad
            drill_handoff.bindings).0
          ≡ user tombstone_quarantine ∷ []
    unfolding sanitize_bindings sanitize_binding sanitize_content verdict decide qualify_use
        evaluate_memory_hot_path validate_tenant validate_domain cache_of decision_code bytes_eq
    poison_window held = simp (held) refl

-- Neither window has the raw text.
pub windows-clean :
    raw_bypass_detected
      (record_windows
        ((user tombstone_quarantine ∷ []) ∷ [])
        (record_windows (clean_messages ∷ []) new_provider))
      raw_poison
    ≡ false
unfolding raw_bypass_detected batches_contain any_contains contains has_prefix record_windows
    controlled_invoke text
windows-clean = refl
