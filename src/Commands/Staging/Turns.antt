-- ===== src/Commands/Staging/Turns.antt =====
-- The handoffs of the staging verification, while their contexts stay open.
use veraxis_memory_admissibi.Prelude.{
  ℕ, ◌≡◌, ◌≢◌, refl, ap, ◌∙◌, false, Option, some, [], ◌∷◌, length,
}
use veraxis_memory_admissibi.Prelude.Bytes.{Bytes, GoString, text}
use veraxis_memory_admissibi.Prelude.Int.{pos}
use veraxis_memory_admissibi.Prelude.Result.{ok, err}
use veraxis_memory_admissibi.Prelude.Time.{Time}
use veraxis_memory_admissibi.Platform.{Platform}
use veraxis_memory_admissibi.Quarantine.Monitor.{RuntimeMonitor}
use veraxis_memory_admissibi.Gateway.{sanitize_bindings}
use veraxis_memory_admissibi.Gateway.Inference.Types.{Context, ProviderResponse}
use veraxis_memory_admissibi.Gateway.Inference.Turns.{sanitize_context_window-ok}
use veraxis_memory_admissibi.Orchestrator.{
  new_handoff_coordinator, turn_of, acquire, release, admit, conclude_handoff,
  execute_agent_handoff,
}
use veraxis_memory_admissibi.Orchestrator.Types.{HandoffCoordinator, Handoff, backpressure}
use veraxis_memory_admissibi.Orchestrator.Freed.{admit-acquire}
use veraxis_memory_admissibi.Orchestrator.Completion.{handoff_result, handoff_completes}
use veraxis_memory_admissibi.Commands.{cache_of}
use veraxis_memory_admissibi.Commands.Staging.{Gate, passes, controlled_invoke}
use veraxis_memory_admissibi.Commands.Staging.Fixture.{
  staging_profiles, staging_wrapper, staging_provider, staging_coordinator,
}
use veraxis_memory_admissibi.Commands.Staging.Checks.{windows_of, admitted_windows}

abbrev pub IsOpen : Context → Type 0
IsOpen looks = (n : ℕ) → looks n ≡ false

-- What the provider answers to every window.
abbrev pub staging_response : ProviderResponse
staging_response = record {
  response = text "staging sub-agent processed sanitized supervisor constraints";
  tokens = record { prompt_tokens = pos 32; completion_tokens = pos 8; total_tokens = pos 40 };
}

module _ ⦃p : Platform⦄ (key_id : GoString) (gate : Gate) (monitor : Option RuntimeMonitor)
    (key : Bytes) (sized : length key ≡ 64) (looks : Context) (live : IsOpen looks) where
  abbrev coordinator : HandoffCoordinator
  coordinator = staging_coordinator key_id gate monitor key

  abbrev pub slot_taken : HandoffCoordinator
  slot_taken = record coordinator { in_flight = 1 }

  pub admits :
      admit looks (some coordinator)
      ≡ ok (slot_taken, staging_wrapper monitor, staging_provider gate)
  unfolding new_handoff_coordinator acquire
  admits =
      admit-acquire looks coordinator (staging_wrapper monitor) (staging_provider gate) (live 0)
        refl refl sized

  pub refuses : admit looks (some slot_taken) ≡ err backpressure
  unfolding new_handoff_coordinator acquire
  refuses =
      admit-acquire looks slot_taken (staging_wrapper monitor) (staging_provider gate) (live 0) refl
        refl sized

  -- The slot is given back.
  pub slot-returned :
      (now : Time) (h : Handoff)
      → (execute_agent_handoff now (some looks) (some coordinator) h).1 ≡ some coordinator
  unfolding execute_agent_handoff conclude_handoff release new_handoff_coordinator
  slot-returned now h = ap (λ m. (conclude_handoff now looks h (some coordinator) m).1) admits

  -- A handoff of a window with a binding hands over the sanitised window.
  pub windows_of-sanitized :
      (h : Handoff)
      → windows_of looks (some coordinator) h
        ≡ (sanitize_bindings
            (staging_wrapper monitor)
            (cache_of staging_profiles)
            (turn_of h)
            h.raw_scratchpad
            h.bindings).0
          ∷ []
  unfolding windows_of
  windows_of-sanitized h =
      ap (admitted_windows looks h) admits
      ∙ rw
          (
            live 1,
            live 2,
            sanitize_context_window-ok (staging_wrapper monitor) (cache_of staging_profiles)
                (turn_of h) h.raw_scratchpad h.bindings refl,
          )
          refl

module _ ⦃p : Platform⦄ (key_id : GoString) (monitor : Option RuntimeMonitor) (key : Bytes)
    (sized : length key ≡ 64) (looks : Context) (live : IsOpen looks) (now : Time) where
  -- A handoff to a provider that is not blocked succeeds.
  pub staging_handoff-completes :
      (h : Handoff)
      → h.bindings ≢ []
      → h.eep_id ≢ []
      → h.aep_id ≢ []
      → (execute_agent_handoff now
          (some looks)
          (some (staging_coordinator key_id passes monitor key))
          h).0
        ≡ ok (
            handoff_result now
              (staging_coordinator key_id passes monitor key)
              (staging_wrapper monitor)
              (cache_of staging_profiles)
              h
              staging_response)
  unfolding new_handoff_coordinator controlled_invoke
  staging_handoff-completes h bound some_eep some_aep =
      handoff_completes now looks (staging_coordinator key_id passes monitor key)
        (staging_wrapper monitor) (cache_of staging_profiles) (staging_provider passes) h
        staging_response (live 0) (live 1) (live 2) refl refl refl sized refl bound some_eep
        some_aep refl
