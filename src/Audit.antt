-- ===== src/Audit.antt =====
-- pkg/audit: verification of a session map, and the lineage records that link it to its
-- consequences. A nil interface is `none`.
pub mod Lineage
pub mod Verify
use veraxis_memory_admissibi.Prelude.{
  ℕ, ◌==◌, Bool, true, false, ◌&&◌, not, Option, none, some, List, length, if◌then◌else◌,
}
use veraxis_memory_admissibi.Prelude.Bytes.{Bytes, bytes_eq}
use veraxis_memory_admissibi.Prelude.Result.{Result, ok, err, ◌>>◌, reject}
use veraxis_memory_admissibi.Platform.{Platform}
use veraxis_memory_admissibi.Merkle.{build_turn_tree}
use veraxis_memory_admissibi.SessionMap.{SessionMap, attestation_bytes, is_empty}

pub record VerificationResult : Type 0 where
  pub signature_valid : Bool
  pub merkle_root_valid : Bool
  pub replay_match : Bool

pub data AuditError : Type 0 where
  zero_leaf_records public_key_required verifier_required : AuditError
  policy_verifier_required runtime_verifier_required : AuditError

-- `VerificationResult{}`
abbrev pub no_result : VerificationResult
no_result = record { signature_valid = false; merkle_root_valid = false; replay_match = false }

-- `PolicySnapshotVerifier` and `RuntimeSnapshotVerifier`, of which a caller supplies the methods.
abbrev pub PolicyVerifier : Type 0
PolicyVerifier = Bytes → Bool

abbrev pub RuntimeVerifier : Type 0
RuntimeVerifier = Bytes → ℕ → Bool

module _ ⦃p : Platform⦄ where
  unfoldable pub verify_session_map : Bytes → SessionMap → Result AuditError VerificationResult
  verify_session_map key s =
      reject (is_empty s.leaf_records) zero_leaf_records
      >> (reject (not (length key == 32)) public_key_required
          >> (if not (bytes_eq (build_turn_tree s.leaf_records) s.merkle_root)
              then ok no_result
              else (let valid = p.ed25519_verify key (attestation_bytes s) s.signature in
                  ok (record {
                    signature_valid = valid;
                    merkle_root_valid = true;
                    replay_match = true && valid;
                  }))))

  unfoldable pub verify_session_map_with_policy :
      Bytes → SessionMap → Option PolicyVerifier → Result AuditError VerificationResult
  verify_session_map_with_policy key s none = err verifier_required
  verify_session_map_with_policy key s (some known) =
      if not (known s.policy_snapshot_hash) then ok no_result else verify_session_map key s

  unfoldable pub verify_session_map_with_policy_and_runtime :
      Bytes
      → SessionMap
      → Option PolicyVerifier
      → Option RuntimeVerifier
      → Result AuditError VerificationResult
  verify_session_map_with_policy_and_runtime key s none runtime = err policy_verifier_required
  verify_session_map_with_policy_and_runtime key s (some known) none = err runtime_verifier_required
  verify_session_map_with_policy_and_runtime key s (some known) (some known_runtime) =
      if not (known s.policy_snapshot_hash)
      then ok no_result
      else if not (known_runtime s.runtime_snapshot_hash s.runtime_snapshot_version)
      then ok no_result
      else verify_session_map key s
