-- ===== src/Commands/ClientLoop.antt =====
-- examples/clientloop/main.go. Each way to exit with 1, and the panic, is an error of its own; `keys`
-- is what ed25519.GenerateKey answers, and the clock's readings are arguments.
use veraxis_memory_admissibi.Prelude.{Bool, false, not, ◌||◌, Option, none, some, List, [], ◌∷◌}
use veraxis_memory_admissibi.Prelude.Bytes.{Bytes, GoString, text, bytes_eq}
use veraxis_memory_admissibi.Prelude.Int.{pos}
use veraxis_memory_admissibi.Prelude.Result.{Result, ok, err, ◌>>◌, reject}
use veraxis_memory_admissibi.Prelude.Time.{Time, hour}
use veraxis_memory_admissibi.Platform.{Platform}
use veraxis_memory_admissibi.Bitmask.{
  EvaluationMask, class_use_context_only, class_use_tone_adjustment,
}
use veraxis_memory_admissibi.Audit.{verify_session_map_with_policy}
use veraxis_memory_admissibi.Gateway.{LlmMessage}
use veraxis_memory_admissibi.Gateway.Adapters.{OpenAiMessage}
use veraxis_memory_admissibi.Gateway.Inference.{Outcome, mock_invoke, execute_admissible_turn}
use veraxis_memory_admissibi.Gateway.Inference.Types.{
  MockRuntimeContext, LifecycleRunner, background,
}
use veraxis_memory_admissibi.Commands.{
  contains, id_of, rogue_text, hash_text, valid_tenant, default_domain, policy_of_2026, bindings,
  wrapper,
}
use Prim.Native.Nat.{bit_or}

pub data LoopError : Type 0 where
  key_panic client_loop_failed rogue_memory_leaked audit_replay_failed : LoopError

abbrev pub loop_mask : EvaluationMask
loop_mask = record {
  required_lifecycle = 0;
  prohibited_safety = 0;
  allowed_use_classes = bit_or class_use_context_only class_use_tone_adjustment;
  prohibited_use_blocks = 0;
  sensitivity_limit = 0;
}

abbrev pub from_user : GoString → LlmMessage
from_user content = record { role = text "user"; content = content }

abbrev pub loop_messages : List LlmMessage
loop_messages =
    record {
      role = text "system";
      content = text "You are a customer service representative agent loop.";
    }
    ∷ from_user (text "verified secure context fragment")
    ∷ from_user (text "user emotional state context flag")
    ∷ from_user (text "rogue cross-tenant memory prompt payload")
    ∷ []

-- The loop over the messages of the payload.
unfoldable pub leaks : List OpenAiMessage → Bool
unfolding contains
leaks [] = false
leaks (m ∷ messages) = contains m.content rogue_text || leaks messages

-- `snapshotVerifier{known: true}`
abbrev pub known_only : Bytes → Bytes → Bool
known_only known hash = bytes_eq known hash

module _ ⦃p : Platform⦄ where
  abbrev pub loop_runner : LifecycleRunner
  loop_runner = record {
    wrapper = some wrapper;
    adapter = some (record { adapter_model = text "gpt-4o" });
    provider = some (
        mock_invoke (record {
          response = text "Processed application query cleanly based on authorized memory states.";
          tokens = record {
            prompt_tokens = pos 256;
            completion_tokens = pos 32;
            total_tokens = pos 288;
          };
        }));
  }

  abbrev pub loop_params : Bytes → Time → MockRuntimeContext
  loop_params private_key now = record {
    ctx = some background;
    tenant = valid_tenant;
    domain = default_domain;
    mask = loop_mask;
    map_id = id_of 100;
    session_id = text "session_example_01";
    agent_id = text "agent_support_alpha";
    actor_id = text "actor_user_99";
    task_id = text "task_refund_check";
    context_hash = hash_text (text "runtime_context_fingerprint");
    private_key = private_key;
    key_id = text "key_id_example_01";
    policy_snapshot_hash = policy_of_2026;
    now = now;
    ttl = hour;
  }

  -- What follows the turn.
  unfoldable pub check_turn : Bytes → Outcome → Result LoopError (Unit {0})
  unfolding leaks
  check_turn public_key (err e, payload) = err client_loop_failed
  check_turn public_key (ok block, payload) =
      reject (leaks payload.messages) rogue_memory_leaked
      >> elim (verify_session_map_with_policy public_key block.session_map
          (some (known_only policy_of_2026))) [
            | err e ↦ err audit_replay_failed
            | ok result ↦ reject (not result.replay_match) audit_replay_failed
          ]

  -- `main`
  unfoldable pub client_loop_main :
      Option (Bytes × Bytes) → Time → Time → Time → Result LoopError (Unit {0})
  unfolding check_turn
  client_loop_main none now clock later = err key_panic
  client_loop_main (some (public_key, private_key)) now clock later = check_turn public_key (
      execute_admissible_turn clock later (some loop_runner) loop_messages bindings
        (loop_params private_key now))
