-- ===== src/Commands/Harness.antt =====
-- cmd/mam-harness/main.go. Each way to exit with 1 is an error of its own; `keys` is what
-- ed25519.GenerateKey answers, and the clock's reading is an argument.
use veraxis_memory_admissibi.Prelude.{
  ℕ, Bool, false, ◌==◌, not, Option, none, some, List, [], ◌∷◌, length, get_elem?,
}
use veraxis_memory_admissibi.Prelude.Bytes.{Bytes, GoString, text, bytes_eq}
use veraxis_memory_admissibi.Prelude.Result.{Result, ok, err, ◌>>=◌, ◌>>◌, reject}
use veraxis_memory_admissibi.Prelude.Time.{Time, hour}
use veraxis_memory_admissibi.Platform.{Platform}
use veraxis_memory_admissibi.Bitmask.{
  EvaluationMask, flag_lifecycle_active, flag_safety_quarantined, class_use_context_only,
  class_use_tone_adjustment, block_use_automated_denial,
}
use veraxis_memory_admissibi.Merkle.{LeafRecord}
use veraxis_memory_admissibi.SessionMap.{generate_session_map}
use veraxis_memory_admissibi.Audit.{verify_session_map_with_policy}
use veraxis_memory_admissibi.Gateway.{
  LlmMessage, Turn, sanitize_context_window, tombstone_hard_refuse,
}
use veraxis_memory_admissibi.Commands.{
  contains, any_contains, id_of, rogue_text, hash_text, valid_tenant, default_domain,
  policy_of_2026, bindings, wrapper,
}
use Prim.Native.Nat.{bit_or}

-- `index_panic` is no exit of the source: an index of its slices would be out of range.
pub data HarnessError : Type 0 where
  identity_generation_failed gateway_fault session_map_failed audit_failure : HarnessError
  assertion_failed : GoString → HarnessError
  control_failure : GoString → HarnessError
  index_panic : HarnessError

-- `MockProvider.Invoke`, as whether it returns an error.
unfoldable pub mock_provider_fails : List LlmMessage → Bool
unfolding any_contains
mock_provider_fails messages = any_contains messages rogue_text

-- `StaticSnapshotVerifier`
abbrev pub static_verifier : Bytes → Bytes → Bool
static_verifier active hash = bytes_eq hash active

-- `assert`
abbrev pub assert : Bool → GoString → Result HarnessError (Unit {0})
assert condition message = reject (not condition) (assertion_failed message)

abbrev pub at {ℓ} : {A : Type ℓ} → List A → ℕ → Result HarnessError A
at xs i = elim (get_elem? xs i) [ none ↦ err index_panic | some a ↦ ok a ]

abbrev pub or_exit {ℓ} :
    {E : Type 0} {A : Type ℓ} → HarnessError → Result E A → Result HarnessError A
or_exit e (ok a) = ok a
or_exit e (err x) = err e

abbrev pub some_keys : Option (Bytes × Bytes) → Result HarnessError (Bytes × Bytes)
some_keys none = err identity_generation_failed
some_keys (some keys) = ok keys

abbrev pub active_mask : EvaluationMask
active_mask = record {
  required_lifecycle = flag_lifecycle_active;
  prohibited_safety = flag_safety_quarantined;
  allowed_use_classes = bit_or class_use_context_only class_use_tone_adjustment;
  prohibited_use_blocks = block_use_automated_denial;
  sensitivity_limit = 0;
}

abbrev pub user : GoString → LlmMessage
user content = record { role = text "user"; content = content }

abbrev pub incoming_messages : List LlmMessage
incoming_messages =
    record {
      role = text "system";
      content = text "You are a customer service representative agent loop.";
    }
    ∷ user (text "Prior interaction history payload: verified secure context fragment.")
    ∷ user (text "Prior interaction history payload: user emotional state context flag.")
    ∷ user (text "Prior interaction history payload: rogue cross-tenant memory prompt payload.")
    ∷ []

-- The assertions on the sanitised window and its leaves.
unfoldable pub check_window : List LlmMessage → List LeafRecord → Result HarnessError (Unit {0})
unfolding contains
check_window sanitized leaves = do
  assert (length leaves == 3) (text "expected three Merkle leaves")
  good ← at sanitized 1
  raw ← at incoming_messages 1
  assert (bytes_eq good.content raw.content) (text "authorized memory should remain unchanged")
  qualified ← at sanitized 2
  assert (contains qualified.content (text "[VERAXIS QUALIFIED MEMORY:"))
      (text "qualified memory must contain constraint annotation")
  rogue ← at sanitized 3
  assert (bytes_eq rogue.content tombstone_hard_refuse)
      (text "rogue memory must be replaced by hard-refuse tombstone")
  leaf_1 ← at leaves 0
  assert leaf_1.injected (text "good memory leaf must be injected")
  leaf_2 ← at leaves 1
  assert leaf_2.injected (text "qualified memory leaf must be injected")
  leaf_3 ← at leaves 2
  assert (not leaf_3.injected) (text "rogue memory leaf must not be injected")

module _ ⦃p : Platform⦄ where
  abbrev pub harness_turn : Turn
  harness_turn = record {
    runtime_tenant = valid_tenant;
    runtime_domain = default_domain;
    mask = active_mask;
  }

  -- From the session map on.
  unfoldable pub seal_and_verify :
      Bytes → Bytes → List LeafRecord → Time → Result HarnessError (Unit {0})
  seal_and_verify public_key private_key leaves now = do
    s ← or_exit session_map_failed (
        generate_session_map (id_of 100) (text "session_test_01") (text "agent_support_alpha")
          (text "actor_user_99") (text "task_refund_check") valid_tenant
          (hash_text (text "runtime_context_fingerprint")) policy_of_2026 leaves private_key
          (text "key_id_harness_01") hour now)
    result ←
        or_exit audit_failure
          (verify_session_map_with_policy public_key s (some (static_verifier policy_of_2026)))
    reject (not result.replay_match) audit_failure

  -- `main`
  unfoldable pub harness_main : Option (Bytes × Bytes) → Time → Result HarnessError (Unit {0})
  unfolding check_window mock_provider_fails seal_and_verify
  harness_main keys now = do
    (public_key, private_key) ← some_keys keys
    (sanitized, leaves) ←
        or_exit gateway_fault
          (sanitize_context_window false (some wrapper) harness_turn incoming_messages bindings)
    check_window sanitized leaves
    reject (mock_provider_fails sanitized)
        (control_failure (text "inadmissible raw memory reached provider payload"))
    reject (not (mock_provider_fails incoming_messages))
        (control_failure (text "raw unsanitized payload unexpectedly passed MockProvider"))
    seal_and_verify public_key private_key leaves now
