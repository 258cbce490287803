-- ===== src/Gateway/Inference/Sealed.antt =====
-- What a turn that comes to its end returns, field by field.
use veraxis_memory_admissibi.Prelude.{
  ◌≡◌, ◌≢◌, ◌↔◌, ◌⊎◌, inl, inr, refl, ap, false, Option, some, none, List, [], ℕ, length, map,
  arith, if◌then◌else◌, Bool-cases, Option-cases,
}
use veraxis_memory_admissibi.Prelude.Int.{pos, leb_ℤ, eqb_ℤ_iff, ◌≤ℤ◌}
use veraxis_memory_admissibi.Prelude.Bytes.{Bytes, text, zeros, bytes_eq, bytes_eq_iff}
use veraxis_memory_admissibi.Prelude.Result.{ok}
use veraxis_memory_admissibi.Prelude.Time.{Time, Duration, add, hour, is_zero, zero_time}
use veraxis_memory_admissibi.Platform.{Platform}
use veraxis_memory_admissibi.Merkle.{LeafRecord, build_turn_tree}
use veraxis_memory_admissibi.SessionMap.{SessionMap, sign_session_map, attestation_bytes}
use veraxis_memory_admissibi.Audit.Verify.{copy_into-full}
use veraxis_memory_admissibi.Quarantine.Monitor.{RuntimeMonitor, active_snapshot_info}
use veraxis_memory_admissibi.Quarantine.Snapshot.{RuntimeSnapshot}
use veraxis_memory_admissibi.Gateway.{
  LlmMessage, MemoryContextBinding, ClientWrapper, ProfileCache, sanitize_bindings,
}
use veraxis_memory_admissibi.Gateway.Adapters.{open_ai_convert}
use veraxis_memory_admissibi.Gateway.Inference.{
  with_defaults, policy_in_force, snapshot_info, context_of, turn_of, execute_admissible_turn,
}
use veraxis_memory_admissibi.Gateway.Inference.Types.{
  AdmissibleInferenceBlock, MockRuntimeContext, ProviderResponse, Provider, OpenAiAdapter,
  after_looks,
}
use veraxis_memory_admissibi.Gateway.Inference.Conditions.{execute-HasResponse}
use veraxis_memory_admissibi.Gateway.Inference.Completion.{turn_map, execute_completes}

-- A value that is given, or another one where it has its zero value.
abbrev pub IsValueOr {ℓ} : {A : Type ℓ} → A → A → A → A → Type ℓ
IsValueOr zero_value value other result =
    ((value ≡ zero_value) × (result ≡ other)) ⊎ ((value ≢ zero_value) × (result ≡ value))

-- The hash and the version of the monitor's active snapshot; zeros without a monitor or a snapshot.
abbrev pub HasSnapshot : Option RuntimeMonitor → Bytes → ℕ → Type 0
HasSnapshot monitor hash version =
    ((m : RuntimeMonitor) × (snap : RuntimeSnapshot) × (monitor ≡ some m)
      × (m.snapshot ≡ some snap)
      × (hash ≡ snap.snapshot_hash)
      × (version ≡ snap.version))
    ⊎ (((monitor ≡ none) ⊎ ((m : RuntimeMonitor) × (monitor ≡ some m) × (m.snapshot ≡ none)))
        × (hash ≡ zeros 32)
        × ◌≡◌ {A = ℕ} version 0)

time-IsValueOr :
    (value other : Time) → IsValueOr zero_time value other (if is_zero value then other else value)
time-IsValueOr value other = elim (Bool-cases (is_zero value)) [
  | inl unset ↦ inl ((eqb_ℤ_iff value zero_time).0 unset, rw unset refl)
  | inr set ↦ inr (λ e. absurd (cc (set, (eqb_ℤ_iff value zero_time).1 e)), rw set refl)
]

policy-IsValueOr :
    (w : ClientWrapper) (hash : Bytes)
    → IsValueOr (zeros 32) hash w.policy_hash (policy_in_force w hash)
unfolding policy_in_force
policy-IsValueOr w hash = elim (Bool-cases (bytes_eq hash (zeros 32))) [
  | inl unset ↦ inl ((bytes_eq_iff hash (zeros 32)).0 unset, rw unset refl)
  | inr set ↦ inr (λ e. absurd (cc (set, (bytes_eq_iff hash (zeros 32)).1 e)), rw set refl)
]

inactive_info : (m : RuntimeMonitor) → m.snapshot ≡ none → active_snapshot_info m ≡ (zeros 32, 0)
unfolding active_snapshot_info
inactive_info m h = rw h refl

active_info :
    (m : RuntimeMonitor) (snap : RuntimeSnapshot)
    → m.snapshot ≡ some snap
    → active_snapshot_info m ≡ (snap.snapshot_hash, snap.version)
unfolding active_snapshot_info
active_info m snap h = rw h refl

snapshot_info-HasSnapshot :
    (w : ClientWrapper) → HasSnapshot w.runtime_monitor (snapshot_info w).0 (snapshot_info w).1
unfolding snapshot_info
snapshot_info-HasSnapshot w = elim (Option-cases w.runtime_monitor) [
  | inl unset ↦ rw unset (inr (inl refl, refl, refl))
  | inr (m, held) ↦ rw held (elim (Option-cases m.snapshot) [
    | inl inactive ↦
        let info = inactive_info m inactive in
        inr (inr (m, refl, inactive), ap (λ i. i.0) info, ap (λ i. i.1) info)
    | inr (snap, active) ↦
        let info = active_info m snap active in
        inl (m, snap, refl, active, ap (λ i. i.0) info, ap (λ i. i.1) info)
  ])
]

expiry_given :
    (now : Time) (ttl : Duration)
    → ((ttl ≤ℤ pos 0) × (add now (if leb_ℤ ttl (pos 0) then hour else ttl) ≡ add now hour))
      ⊎ ((¬ (ttl ≤ℤ pos 0)) × (add now (if leb_ℤ ttl (pos 0) then hour else ttl) ≡ add now ttl))
expiry_given now ttl = elim (Bool-cases (leb_ℤ ttl (pos 0))) [
  | inl unset ↦ inl (ground (arith, unset), rw unset refl)
  | inr set ↦ inr (ground (arith, set), rw set refl)
]

module _ ⦃p : Platform⦄ where
  -- The session map of a turn: what the turn names, the leaf records with their root, the turn's policy
  -- or else the wrapper's, the active snapshot, the turn's time or else the clock's, the end of its
  -- time to live or else of an hour, and the signature of the attested bytes.
  pub record IsTurnMap (clock : Time) (w : ClientWrapper) (r : MockRuntimeContext)
      (leaves : List LeafRecord) (s : SessionMap) : Type 0 where
    pub version : s.version ≡ text "0.1"
    pub map_id : s.session_map_id ≡ r.map_id
    pub session : s.session_id ≡ r.session_id
    pub agent : s.agent_id ≡ r.agent_id
    pub actor : s.actor_id ≡ r.actor_id
    pub tenant : s.tenant_hash ≡ r.tenant
    pub task : s.task_id ≡ r.task_id
    pub context : s.runtime_context_hash ≡ r.context_hash
    pub key_id : s.signing_key_id ≡ r.key_id
    pub leaf_records : s.leaf_records ≡ leaves
    pub root : s.merkle_root ≡ build_turn_tree leaves
    pub policy : IsValueOr (zeros 32) r.policy_snapshot_hash w.policy_hash s.policy_snapshot_hash
    pub snapshot : HasSnapshot w.runtime_monitor s.runtime_snapshot_hash s.runtime_snapshot_version
    pub created : IsValueOr zero_time r.now clock s.created_at
    pub expires :
        ((r.ttl ≤ℤ pos 0) × (s.expires_at ≡ add s.created_at hour))
        ⊎ ((¬ (r.ttl ≤ℤ pos 0)) × (s.expires_at ≡ add s.created_at r.ttl))
    pub signature : s.signature ≡ p.ed25519_sign r.private_key (attestation_bytes s)

  -- The block of a turn that the provider answers with `response`.
  pub record IsTurnBlock (clock later : Time) (w : ClientWrapper) (a : OpenAiAdapter)
      (r : MockRuntimeContext) (leaves : List LeafRecord) (response : ProviderResponse)
      (block : AdmissibleInferenceBlock) : Type 0 where
    pub inference : block.inference_id ≡ text "inf_local_0001"
    pub model : block.model_name ≡ a.adapter_model
    pub answer : block.response_text ≡ response.response
    pub tokens : block.usage_tokens ≡ response.tokens
    pub session_map : IsTurnMap clock w r leaves block.session_map
    pub completed : IsValueOr zero_time block.session_map.created_at later block.completed_at

  turn_map-IsTurnMap :
      (clock : Time) (w : ClientWrapper) (r : MockRuntimeContext) (leaves : List LeafRecord)
      → length r.private_key ≡ 64
      → IsTurnMap clock w r leaves (turn_map w (with_defaults clock r) leaves)
  unfolding with_defaults sign_session_map attestation_bytes
  turn_map-IsTurnMap clock w r leaves sized = record {
    version = refl;
    map_id = refl;
    session = refl;
    agent = refl;
    actor = refl;
    tenant = refl;
    task = refl;
    context = refl;
    key_id = refl;
    leaf_records = refl;
    root = refl;
    policy = policy-IsValueOr w r.policy_snapshot_hash;
    snapshot = snapshot_info-HasSnapshot w;
    created = time-IsValueOr r.now clock;
    expires = expiry_given (if is_zero r.now then clock else r.now) r.ttl;
    signature = copy_into-full 64 _ (p.length-sign r.private_key _ sized);
  }

  -- A turn of a wrapper with a profile cache returns a block with the response exactly when its key has
  -- 64 bytes, its context is not done, it has at least one binding, and the provider answers the
  -- sanitised window with the response. The payload that it returns has the adapter's model and the
  -- role and the content of each message of the sanitised window, in order. The block has the response
  -- and a session map with the names of the turn, the leaf records of the bindings and their Merkle
  -- root, the turn's policy hash or, where it is zero, the wrapper's, the monitor's active snapshot, the
  -- turn's time or, where it is zero, the clock's, an expiry behind the time to live or, where it is
  -- not positive, behind an hour, and the signature of the attested bytes.
  pub execute-IsTurnBlock :
      (clock later : Time) (w : ClientWrapper) (a : OpenAiAdapter) (provider : Provider)
      (cache : ProfileCache) (r : MockRuntimeContext) (messages : List LlmMessage)
      (bindings : List MemoryContextBinding) (response : ProviderResponse)
      → w.profiles ≡ some cache
      → ((length r.private_key ≡ 64)
          × (context_of r 0 ≡ false)
          × (bindings ≢ [])
          × (provider
                (after_looks 1 (context_of r))
                (sanitize_bindings w cache (turn_of r) messages bindings).0
              ≡ ok response))
        ↔ ((block : AdmissibleInferenceBlock) × (execute_admissible_turn clock later
                (some (record { wrapper = some w; adapter = some a; provider = some provider }))
                messages
                bindings
                r
              ≡ (
                ok block,
                record {
                  model = a.adapter_model;
                  messages =
                      map
                        (λ m. record { role = m.role; content = m.content })
                        (sanitize_bindings w cache (turn_of r) messages bindings).0;
                },
              ))
            × IsTurnBlock clock later w a r
                (sanitize_bindings w cache (turn_of r) messages bindings).1
                response
                block)
  unfolding open_ai_convert with_defaults sign_session_map
  execute-IsTurnBlock clock later w a provider cache r messages bindings response profiled = (
    λ (sized, live, bound, answered). (
      _,
      execute_completes clock later w a provider cache r messages bindings response sized live
          profiled bound answered,
      record {
        inference = refl;
        model = refl;
        answer = refl;
        tokens = refl;
        session_map = turn_map-IsTurnMap clock w r _ sized;
        completed = time-IsValueOr (if is_zero r.now then clock else r.now) later;
      },
    ),
    λ (block, done, is_block).
        execute-HasResponse clock later w a provider cache r messages bindings response block
          profiled (ap (λ o. o.0) done) is_block.answer is_block.tokens,
  )
