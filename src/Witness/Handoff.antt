-- ===== src/Witness/Handoff.antt =====
-- Handoffs at concrete inputs.
use veraxis_memory_admissibi.Prelude.{ℕ, ◌≤◌, ◌≡◌, refl, some, List, [], ◌∷◌, replicate}
use veraxis_memory_admissibi.Prelude.Bytes.{Bytes, text, bytes_eq}
use veraxis_memory_admissibi.Prelude.Int.{pos}
use veraxis_memory_admissibi.Prelude.Result.{ok, err}
use veraxis_memory_admissibi.Platform.{Platform, IsGenerated}
use veraxis_memory_admissibi.Prelude.Bytes.{zeros}
use veraxis_memory_admissibi.Prelude.Time.{hour, unix}
use veraxis_memory_admissibi.Merkle.{LeafRecord}
use veraxis_memory_admissibi.SessionMap.{SessionMap, generate_session_map_with_runtime_snapshot}
use veraxis_memory_admissibi.SessionMap.Generate.{generated}
use veraxis_memory_admissibi.Audit.Lineage.{linked, compile_lineage_record}
use veraxis_memory_admissibi.Gateway.{LlmMessage, sanitize_bindings, sanitize_context_window}
use veraxis_memory_admissibi.Gateway.Inference.{mock_invoke, snapshot_info}
use veraxis_memory_admissibi.Gateway.Inference.Types.{Provider, ProviderResponse, background}
use veraxis_memory_admissibi.Orchestrator.{
  acquire, admit, execute_agent_handoff, turn_of, handoff_block, conclude_handoff, run_handoff,
  generate_handoff_session_map, new_handoff_coordinator,
}
use veraxis_memory_admissibi.Orchestrator.Types.{
  HandoffCoordinator, Handoff, HandoffResult, backpressure,
}
use veraxis_memory_admissibi.Orchestrator.Handoffs.{Evident, handoff-Evident}
use veraxis_memory_admissibi.Orchestrator.Slots.{
  Handoffs, Ends, begins, Reach, start, later, fresh, slots_bounded,
}
use veraxis_memory_admissibi.Orchestrator.Freed.{slot_freed}
use veraxis_memory_admissibi.Witness.Toy.{toy}
use veraxis_memory_admissibi.Witness.Sample.{
  id_a, id_b, hash_of, mask, cache, client, message, bind,
}

instance here : Platform
here = toy

abbrev key : Bytes
key = replicate 64 9

key-IsGenerated : IsGenerated key
unfolding here
key-IsGenerated = (replicate 32 9, refl, refl)

abbrev response : ProviderResponse
response = record {
  response = text "yes";
  tokens = record { prompt_tokens = pos 1; completion_tokens = pos 2; total_tokens = pos 3 };
}

abbrev provider : Provider
provider = mock_invoke response

abbrev handoff : Handoff
handoff = record {
  mcr_id = id_b;
  map_id = id_a;
  session_id = text "s";
  task_id = text "t";
  actor_id = text "u";
  target = record { agent_id = text "a"; tenant_hash = hash_of 6; domain_hash = hash_of 7 };
  mask = mask;
  raw_scratchpad = message (text "hello") ∷ [];
  bindings = bind id_a 0 ∷ [];
  eep_id = text "e";
  aep_id = text "p";
}

-- A coordinator of one slot.
abbrev one_slot : HandoffCoordinator
one_slot = fresh client provider (text "k") key (pos 1)

abbrev taken : HandoffCoordinator
taken = record one_slot { in_flight = 1 }

admits : admit background (some one_slot) ≡ ok (taken, client, provider)
unfolding admit acquire new_handoff_coordinator
admits = refl

-- One handoff runs.
running_one : Reach one_slot (record { coordinator = taken; running = handoff ∷ [] })
running_one = later start (begins background one_slot taken client provider handoff [] admits)

slots_bounded_example : (◌≡◌ {A = ℕ} 1 1) × (1 ≤ one_slot.capacity) × (1 ≤ one_slot.capacity)
slots_bounded_example = slots_bounded client provider (text "k") key (pos 1) running_one

refuses : admit background (some taken) ≡ err backpressure
unfolding admit acquire new_handoff_coordinator
refuses = refl

slot_freed_example :
    (t : Handoffs) × Ends (record { coordinator = taken; running = handoff ∷ [] }) t
    × (held : HandoffCoordinator) × (admit background (some t.coordinator)
        ≡ ok (held, client, provider))
slot_freed_example =
    slot_freed client provider (text "k") key (pos 1) background running_one refl refl refuses

abbrev sanitized : List LlmMessage × List LeafRecord
sanitized = sanitize_bindings client cache (turn_of handoff) handoff.raw_scratchpad handoff.bindings

abbrev signed : SessionMap
signed =
    generated id_a (text "s") (text "a") (text "u") (text "t") (hash_of 6) (zeros 32) (hash_of 4)
      (zeros 32) 0 sanitized.1 key (text "k") hour (pos 5)

abbrev result : HandoffResult
result = record {
  sanitized_payload = sanitized.0;
  inference_block = handoff_block (pos 5) taken handoff response signed;
  consequence_token = linked id_b signed (text "e") (text "p") (unix (pos 5));
}

succeeds : (execute_agent_handoff (pos 5) (some background) (some one_slot) handoff).0 ≡ ok result
unfolding execute_agent_handoff admit acquire new_handoff_coordinator conclude_handoff run_handoff
    generate_handoff_session_map generate_session_map_with_runtime_snapshot sanitize_context_window
    snapshot_info mock_invoke compile_lineage_record bytes_eq text sanitize_bindings
succeeds = refl

handoff-Evident_example : Evident one_slot client cache handoff result
unfolding new_handoff_coordinator
handoff-Evident_example =
    handoff-Evident (pos 5) (some background) one_slot client cache handoff result refl refl
      key-IsGenerated succeeds
