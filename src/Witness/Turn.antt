-- ===== src/Witness/Turn.antt =====
-- Turns, recoveries and swaps at concrete inputs.
use veraxis_memory_admissibi.Prelude.{◌≡◌, refl, false, some, none, List, [], ◌∷◌, ◌++◌, replicate}
use veraxis_memory_admissibi.Prelude.Bytes.{Bytes, text, zeros}
use veraxis_memory_admissibi.Prelude.Int.{pos}
use veraxis_memory_admissibi.Prelude.Result.{ok}
use veraxis_memory_admissibi.Prelude.Time.{Time}
use veraxis_memory_admissibi.Platform.{Platform, IsGenerated}
use veraxis_memory_admissibi.Gateway.{LlmMessage, MemoryContextBinding, injects, sanitize_bindings}
use veraxis_memory_admissibi.Gateway.Window.{decision_of}
use veraxis_memory_admissibi.Gateway.Inference.{
  mock_invoke, with_defaults, turn_of, execute_admissible_turn,
}
use veraxis_memory_admissibi.Gateway.Inference.Types.{
  MockRuntimeContext, ProviderResponse, Provider, OpenAiAdapter, background,
  AdmissibleInferenceBlock,
}
use veraxis_memory_admissibi.Gateway.Inference.Turns.{execute-withheld, execute-verify}
use veraxis_memory_admissibi.Gateway.Inference.Sealed.{IsTurnBlock, execute-IsTurnBlock}
use veraxis_memory_admissibi.Prelude.{map, ap, length, ◌≢◌, ◌↔◌}
use veraxis_memory_admissibi.Audit.{verify_session_map}
use veraxis_memory_admissibi.Audit.Verify.{accepted}
use veraxis_memory_admissibi.Gateway.Inference.Completion.{execute_completes, turn_map}
use veraxis_memory_admissibi.Quarantine.Event.{RevocationEvent, EventType}
use veraxis_memory_admissibi.Quarantine.Monitor.{RuntimeMonitor, new_runtime_monitor, lookup}
use veraxis_memory_admissibi.Gateway.{verdict}
use veraxis_memory_admissibi.Prelude.{true, arith}
use veraxis_memory_admissibi.Prelude.Bytes.{bytes_eq}
use veraxis_memory_admissibi.Quarantine.Snapshot.{RuntimeSnapshot}
use veraxis_memory_admissibi.Quarantine.Monitor.{active_snapshot_info}
use veraxis_memory_admissibi.Quarantine.Ledger.RoundTrip.{AreStored, append_each}
use veraxis_memory_admissibi.Quarantine.Ledger.Recovery.{
  recover_monitor_from_file, publish_each, events_of, recover-live, new_runtime_monitor-UpToDate,
}
use veraxis_memory_admissibi.Quarantine.Swaps.{Reach}
use veraxis_memory_admissibi.Quarantine.Swaps.Stale.{swap_stale}
use veraxis_memory_admissibi.Quarantine.Swaps.{start, later, copied, appends, copies, loads, stores}
use veraxis_memory_admissibi.Quarantine.Swaps.Prefix.{FromPrefix, swaps-FromPrefix}
use veraxis_memory_admissibi.Quarantine.Snapshot.{compile_snapshot, new_empty_snapshot}
use veraxis_memory_admissibi.Quarantine.Monitor.{append_event, swap_active_snapshot, next_version}
use veraxis_memory_admissibi.Witness.Toy.{toy}
use veraxis_memory_admissibi.Witness.Sample.{
  id_a, id_b, hash_of, mask, cache, client, message, bind, codec, event,
}

instance here : Platform
here = toy

abbrev key : Bytes
key = replicate 64 9

-- A turn without a context and without a clock reading or a time to live of its own.
abbrev params : MockRuntimeContext
params = record {
  ctx = none;
  tenant = hash_of 6;
  domain = hash_of 7;
  mask = mask;
  map_id = id_a;
  session_id = text "s";
  agent_id = text "a";
  actor_id = text "u";
  task_id = text "t";
  context_hash = hash_of 8;
  private_key = key;
  key_id = text "k";
  policy_snapshot_hash = zeros 32;
  now = pos 5;
  ttl = pos 0;
}

abbrev response : ProviderResponse
response = record {
  response = text "yes";
  tokens = record { prompt_tokens = pos 1; completion_tokens = pos 2; total_tokens = pos 3 };
}

abbrev provider : Provider
provider = mock_invoke response

abbrev adapter : OpenAiAdapter
adapter = record { adapter_model = text "m" }

abbrev window : List LlmMessage
window = message (text "hello") ∷ message (text "secret") ∷ []

abbrev other_window : List LlmMessage
other_window = message (text "hello") ∷ message (text "other") ∷ []

abbrev bindings : List MemoryContextBinding
bindings = bind id_a 0 ∷ bind id_b 1 ∷ []

unknown_withheld : injects (decision_of client cache (turn_of params) (bind id_b 1)) ≡ false
unfolding injects verdict bytes_eq
unknown_withheld = refl

execute-withheld_example :
    execute_admissible_turn
      (pos 1)
      (pos 2)
      (some (record { wrapper = some client; adapter = some adapter; provider = some provider }))
      window
      bindings
      params
    ≡ execute_admissible_turn
        (pos 1)
        (pos 2)
        (some (record { wrapper = some client; adapter = some adapter; provider = some provider }))
        other_window
        bindings
        params
execute-withheld_example =
    execute-withheld (pos 1) (pos 2) client adapter provider cache params 1 (bind id_a 0 ∷ [])
      (bind id_b 1) [] window other_window refl refl unknown_withheld refl

answered :
    provider background (sanitize_bindings client cache (turn_of params) window bindings).0
    ≡ ok response
unfolding mock_invoke bytes_eq text
answered = refl

execute-IsTurnBlock_example :
    ((length key ≡ 64)
      × (background 0 ≡ false)
      × (bindings ≢ [])
      × (provider background (sanitize_bindings client cache (turn_of params) window bindings).0
          ≡ ok response))
    ↔ ((block : AdmissibleInferenceBlock) × (execute_admissible_turn
            (pos 1)
            (pos 2)
            (some
              (record { wrapper = some client; adapter = some adapter; provider = some provider }))
            window
            bindings
            params
          ≡ (
            ok block,
            record {
              model = text "m";
              messages =
                  map
                    (λ (m : LlmMessage). record { role = m.role; content = m.content })
                    (sanitize_bindings client cache (turn_of params) window bindings).0;
            },
          ))
        × IsTurnBlock
            (pos 1)
            (pos 2)
            client
            adapter
            params
            (sanitize_bindings client cache (turn_of params) window bindings).1
            response
            block)
execute-IsTurnBlock_example =
    execute-IsTurnBlock (pos 1) (pos 2) client adapter provider cache params window bindings
      response refl

key-IsGenerated : IsGenerated key
unfolding here
key-IsGenerated = (replicate 32 9, refl, refl)

abbrev sealed : AdmissibleInferenceBlock
sealed = record {
  inference_id = text "inf_local_0001";
  model_name = text "m";
  response_text = text "yes";
  usage_tokens = response.tokens;
  session_map =
      turn_map client (with_defaults (pos 1) params)
        (sanitize_bindings client cache (turn_of params) window bindings).1;
  completed_at = pos 5;
}

succeeds :
    (execute_admissible_turn
      (pos 1)
      (pos 2)
      (some (record { wrapper = some client; adapter = some adapter; provider = some provider }))
      window
      bindings
      params).0
    ≡ ok sealed
unfolding with_defaults
succeeds =
    ap (λ o. o.0)
      (execute_completes (pos 1) (pos 2) client adapter provider cache params window bindings
        response refl refl refl (λ e. cc) answered)

execute-verify_example :
    (verify_session_map (here.ed25519_public key) sealed.session_map ≡ ok accepted)
    × (sealed.session_map.leaf_records
        ≡ (sanitize_bindings client cache (turn_of params) window bindings).1)
execute-verify_example =
    execute-verify (pos 1) (pos 2) client adapter provider cache params window bindings sealed refl
      key-IsGenerated succeeds

abbrev stored : List (RevocationEvent × Time)
stored =
    (event id_a EventType.revoke_memory, pos 1) ∷ (event id_b EventType.revoke_memory, pos 2) ∷ []

stored-AreStored : AreStored codec (events_of stored)
stored-AreStored = (
  record { payload = id_a; encoded = refl; fits = (omega arith, omega arith); decoded = refl },
  (
    record { payload = id_b; encoded = refl; fits = (omega arith, omega arith); decoded = refl },
    tt,
  ),
)

recover-live_example :
    (m : RuntimeMonitor) × (snap : RuntimeSnapshot) × (recover_monitor_from_file codec
        (ok
          (append_each codec (events_of stored) (record { is_open = true; content = [] })).content)
        (active_snapshot_info (publish_each stored (new_runtime_monitor (pos 0)))).1
        (pos 3)
        (pos 4)
      ≡ ok (m, snap))
    × (m.ledger ≡ (publish_each stored (new_runtime_monitor (pos 0))).ledger)
    × (active_snapshot_info m
        ≡ active_snapshot_info (publish_each stored (new_runtime_monitor (pos 0))))
    × ((id : Bytes) → lookup m id ≡ lookup (publish_each stored (new_runtime_monitor (pos 0))) id)
recover-live_example = recover-live codec stored (pos 0) (pos 3) (pos 4) stored-AreStored

swap_stale_example :
    (t : RuntimeMonitor) × Reach
      (record { monitor = new_runtime_monitor (pos 0); calls = [] })
      (record { monitor = t; calls = [] })
    × (t.ledger ≡ [] ++ event id_a EventType.revoke_memory ∷ [])
    × ((id : Bytes) → lookup t id ≡ lookup (new_runtime_monitor (pos 0)) id)
swap_stale_example =
    swap_stale (new_runtime_monitor (pos 0)) [] (event id_a EventType.revoke_memory) (pos 1) (pos 2)
      (new_runtime_monitor-UpToDate (pos 0))

-- A call copies, an event comes, and the call goes on to its end.
abbrev before_event : RuntimeMonitor
before_event = new_runtime_monitor (pos 0)

abbrev behind_event : RuntimeMonitor
behind_event = append_event (event id_a EventType.revoke_memory) before_event

interleaved :
    Reach
      (record { monitor = before_event; calls = [] })
      (record {
        monitor =
            swap_active_snapshot
              (some (compile_snapshot before_event.ledger (next_version behind_event) (pos 1)))
              behind_event;
        calls = [];
      })
interleaved =
    later
      (later
        (later (later start (copies before_event [])) (
          appends before_event (copied before_event.ledger ∷ [])
            (event id_a EventType.revoke_memory)))
        (loads behind_event [] before_event.ledger []))
      (stores behind_event [] before_event.ledger (next_version behind_event) [] (pos 1))

fresh-FromPrefix : FromPrefix (record { monitor = before_event; calls = [] })
unfolding new_runtime_monitor new_empty_snapshot compile_snapshot
fresh-FromPrefix = record {
  events = [];
  version = 0;
  at = pos 0;
  first = ([], refl);
  active = refl;
  held = tt;
}

swaps-FromPrefix_example : FromPrefix (record {
  monitor =
      swap_active_snapshot
        (some (compile_snapshot before_event.ledger (next_version behind_event) (pos 1)))
        behind_event;
  calls = [];
})
swaps-FromPrefix_example = swaps-FromPrefix fresh-FromPrefix interleaved
