-- ===== src/SessionMap.antt =====
-- pkg/sessionmap/sessionmap.go: the signed record of a turn.
pub mod Attestation
pub mod Generate
use veraxis_memory_admissibi.Prelude.{
  ℕ, zero, suc, ◌==◌, ◌≡◌, not, Bool, List, [], ◌∷◌, ◌++◌, length, take, drop,
}
use veraxis_memory_admissibi.Prelude.Bytes.{Bytes, GoString, text, zeros, big_endian}
use veraxis_memory_admissibi.Prelude.Int.{ℤ, pos, leb_ℤ}
use veraxis_memory_admissibi.Prelude.Result.{Result, ok, ◌>>◌, reject}
use veraxis_memory_admissibi.Prelude.Time.{Time, Duration, add, unix_nano_u64}
use veraxis_memory_admissibi.Platform.{Platform}
use veraxis_memory_admissibi.Merkle.{LeafRecord, build_turn_tree}

pub record SessionMap : Type 0 where
  pub version : GoString
  pub session_map_id : Bytes
  pub session_id : GoString
  pub agent_id : GoString
  pub actor_id : GoString
  pub tenant_hash : Bytes
  pub task_id : GoString
  pub runtime_context_hash : Bytes
  pub policy_snapshot_hash : Bytes
  pub runtime_snapshot_hash : Bytes
  pub runtime_snapshot_version : ℕ
  pub merkle_root : Bytes
  pub signature : Bytes
  pub signing_key_id : GoString
  pub created_at : Time
  pub expires_at : Time
  pub leaf_records : List LeafRecord

pub data SessionMapError : Type 0 where
  zero_leaf_records signing_key_required ttl_not_positive : SessionMapError

-- `copy(dst[:], src)` into an array of `n` zeros.
abbrev pub copy_into : ℕ → Bytes → Bytes
copy_into n src = take n src ++ drop (length src) (zeros n)

abbrev pub is_empty {ℓ} : {A : Type ℓ} → List A → Bool
is_empty xs = length xs == 0

-- `AttestationBytes`
unfoldable pub attestation_bytes : SessionMap → Bytes
attestation_bytes s =
    s.version
    ++ (s.session_map_id
        ++ (s.session_id
            ++ (s.agent_id
                ++ (s.actor_id
                    ++ (s.tenant_hash
                        ++ (s.task_id
                            ++ (s.runtime_context_hash
                                ++ (s.policy_snapshot_hash
                                    ++ (s.runtime_snapshot_hash
                                        ++ (big_endian 8 s.runtime_snapshot_version
                                            ++ (s.merkle_root
                                                ++ (s.signing_key_id
                                                    ++ (big_endian 8 (unix_nano_u64 s.created_at)
                                                        ++ big_endian 8 (
                                                            unix_nano_u64 s.expires_at))))))))))))))

module _ ⦃p : Platform⦄ where
  -- `ed25519.Sign` and the copy of the signature into the record.
  unfoldable pub sign_session_map : Bytes → SessionMap → SessionMap
  unfolding attestation_bytes
  sign_session_map key s = record s {
    signature = copy_into 64 (p.ed25519_sign key (attestation_bytes s));
  }

  -- The record before it is signed.
  abbrev pub unsigned_map :
      Bytes
      → GoString
      → GoString
      → GoString
      → GoString
      → Bytes
      → Bytes
      → Bytes
      → Bytes
      → ℕ
      → List LeafRecord
      → GoString
      → Duration
      → Time
      → SessionMap
  unsigned_map id session agent actor task tenant context policy runtime_hash runtime_version leaves
        key_id ttl now =
      record {
        version = text "0.1";
        session_map_id = id;
        session_id = session;
        agent_id = agent;
        actor_id = actor;
        tenant_hash = tenant;
        task_id = task;
        runtime_context_hash = context;
        policy_snapshot_hash = policy;
        runtime_snapshot_hash = runtime_hash;
        runtime_snapshot_version = runtime_version;
        merkle_root = build_turn_tree leaves;
        signature = zeros 64;
        signing_key_id = key_id;
        created_at = now;
        expires_at = add now ttl;
        leaf_records = leaves;
      }

  unfoldable pub generate_session_map_with_runtime_snapshot :
      Bytes
      → GoString
      → GoString
      → GoString
      → GoString
      → Bytes
      → Bytes
      → Bytes
      → Bytes
      → ℕ
      → List LeafRecord
      → Bytes
      → GoString
      → Duration
      → Time
      → Result SessionMapError SessionMap
  unfolding sign_session_map
  generate_session_map_with_runtime_snapshot id session agent actor task tenant context policy
        runtime_hash runtime_version leaves key key_id ttl now =
      reject (is_empty leaves) zero_leaf_records
      >> (reject (not (length key == 64)) signing_key_required
          >> (reject (leb_ℤ ttl (pos 0)) ttl_not_positive
              >> ok (
                  sign_session_map key (
                    unsigned_map id session agent actor task tenant context policy runtime_hash
                      runtime_version leaves key_id ttl now))))

  unfoldable pub generate_session_map :
      Bytes
      → GoString
      → GoString
      → GoString
      → GoString
      → Bytes
      → Bytes
      → Bytes
      → List LeafRecord
      → Bytes
      → GoString
      → Duration
      → Time
      → Result SessionMapError SessionMap
  unfolding generate_session_map_with_runtime_snapshot
  generate_session_map id session agent actor task tenant context policy leaves key key_id ttl now =
      generate_session_map_with_runtime_snapshot id session agent actor task tenant context policy
        (zeros 32) 0 leaves key key_id ttl now
