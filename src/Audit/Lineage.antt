-- ===== src/Audit/Lineage.antt =====
-- pkg/audit/lineage.go: machine consequence records.
use mathlib.Core.Path.{subst}
use veraxis_memory_admissibi.Prelude.{
  ℕ, ◌==◌, ◌≡◌, ◌↔◌, refl, sym, ap, ◌≢◌, ==_iff, Bool, true, false, ◌||◌, not, [], ◌∷◌, ◌++◌,
  if◌then◌else◌, arith,
}
use veraxis_memory_admissibi.Prelude.Bytes.{Bytes, GoString, big_endian, bytes_eq, bytes_eq_iff}
use veraxis_memory_admissibi.Prelude.Int.{ℤ, to_u64}
use veraxis_memory_admissibi.Prelude.Result.{Result, ok, err, ◌>>◌, reject}
use veraxis_memory_admissibi.Platform.{Platform}
use veraxis_memory_admissibi.SessionMap.{SessionMap, copy_into}

pub record MachineConsequenceRecord : Type 0 where
  pub mcr_id : Bytes
  pub session_map_id : Bytes
  pub merkle_root : Bytes
  pub policy_snapshot_hash : Bytes
  pub runtime_snapshot_hash : Bytes
  pub runtime_snapshot_version : ℕ
  pub eep_id : GoString
  pub aep_id : GoString
  pub lineage_digest : Bytes
  pub linked_at_unix : ℤ

pub data LineageError : Type 0 where
  lineage_malformed : LineageError

-- The five tests of `VerifyLineageRecord` and what follows them.
five_tests :
    (a b c d e last : Bool)
    → ((if not a || (not b || (not c || (not d || not e))) then false else last) ≡ true)
      ↔ ((a ≡ true) × (b ≡ true) × (c ≡ true) × (d ≡ true) × (e ≡ true) × (last ≡ true))
five_tests a b c d e last = ground arith

same_record :
    (m n : MachineConsequenceRecord)
    → m.mcr_id ≡ n.mcr_id
    → m.session_map_id ≡ n.session_map_id
    → m.merkle_root ≡ n.merkle_root
    → m.policy_snapshot_hash ≡ n.policy_snapshot_hash
    → m.runtime_snapshot_hash ≡ n.runtime_snapshot_hash
    → m.runtime_snapshot_version ≡ n.runtime_snapshot_version
    → m.eep_id ≡ n.eep_id
    → m.aep_id ≡ n.aep_id
    → m.lineage_digest ≡ n.lineage_digest
    → m.linked_at_unix ≡ n.linked_at_unix
    → m ≡ n
same_record m n a b c d e f g h i j = cc

module _ ⦃p : Platform⦄ where
  unfoldable pub compute_lineage_digest :
      Bytes → Bytes → Bytes → Bytes → Bytes → ℕ → GoString → GoString → ℤ → Bytes
  compute_lineage_digest mcr_id id root policy runtime version eep aep linked_at = copy_into 32 (
      p.sha256 (
        mcr_id
        ++ (id
            ++ (root
                ++ (policy
                    ++ (runtime
                        ++ (big_endian 8 version
                            ++ (eep
                                ++ ((0 ∷ [])
                                    ++ (aep
                                        ++ ((0 ∷ []) ++ big_endian 8 (to_u64 linked_at))))))))))))

  -- The record that `CompileLineageRecord` returns.
  abbrev pub linked : Bytes → SessionMap → GoString → GoString → ℤ → MachineConsequenceRecord
  linked mcr_id s eep aep linked_at = record {
    mcr_id = mcr_id;
    session_map_id = s.session_map_id;
    merkle_root = s.merkle_root;
    policy_snapshot_hash = s.policy_snapshot_hash;
    runtime_snapshot_hash = s.runtime_snapshot_hash;
    runtime_snapshot_version = s.runtime_snapshot_version;
    eep_id = eep;
    aep_id = aep;
    lineage_digest =
        compute_lineage_digest mcr_id s.session_map_id s.merkle_root s.policy_snapshot_hash
          s.runtime_snapshot_hash s.runtime_snapshot_version eep aep linked_at;
    linked_at_unix = linked_at;
  }

  unfoldable pub compile_lineage_record :
      Bytes → SessionMap → GoString → GoString → ℤ → Result LineageError MachineConsequenceRecord
  compile_lineage_record mcr_id s eep aep linked_at =
      reject (bytes_eq eep [] || bytes_eq aep []) lineage_malformed
      >> ok (linked mcr_id s eep aep linked_at)

  -- The last test of `VerifyLineageRecord`, on what `CompileLineageRecord` returns.
  unfoldable pub same_digest :
      MachineConsequenceRecord → Result LineageError MachineConsequenceRecord → Bool
  same_digest mcr (err e) = false
  same_digest mcr (ok again) = bytes_eq mcr.lineage_digest again.lineage_digest

  unfoldable pub verify_lineage_record : MachineConsequenceRecord → SessionMap → Bool
  unfolding same_digest
  verify_lineage_record mcr s =
      if not (bytes_eq mcr.session_map_id s.session_map_id)
        || (not (bytes_eq mcr.merkle_root s.merkle_root)
            || (not (bytes_eq mcr.policy_snapshot_hash s.policy_snapshot_hash)
                || (not (bytes_eq mcr.runtime_snapshot_hash s.runtime_snapshot_hash)
                    || not (mcr.runtime_snapshot_version == s.runtime_snapshot_version))))
      then false
      else same_digest mcr
          (compile_lineage_record mcr.mcr_id s mcr.eep_id mcr.aep_id mcr.linked_at_unix)

  pub compile_lineage_record_iff :
      (mcr_id : Bytes) (s : SessionMap) (eep aep : GoString) (linked_at : ℤ)
      (m : MachineConsequenceRecord)
      → (compile_lineage_record mcr_id s eep aep linked_at ≡ ok m)
        ↔ ((eep ≢ []) × (aep ≢ []) × (linked mcr_id s eep aep linked_at ≡ m))
  unfolding compile_lineage_record
  compile_lineage_record_iff mcr_id s eep aep linked_at m =
      let again = linked mcr_id s eep aep linked_at in
      let eep_iff = bytes_eq_iff eep [] in let aep_iff = bytes_eq_iff aep [] in ground arith

  same_digest_iff :
      (mcr : MachineConsequenceRecord) (s : SessionMap)
      → (same_digest mcr
            (compile_lineage_record mcr.mcr_id s mcr.eep_id mcr.aep_id mcr.linked_at_unix)
          ≡ true)
        ↔ ((mcr.eep_id ≢ [])
            × (mcr.aep_id ≢ [])
            × (mcr.lineage_digest
                ≡ (linked mcr.mcr_id s mcr.eep_id mcr.aep_id mcr.linked_at_unix).lineage_digest))
  unfolding compile_lineage_record same_digest
  same_digest_iff mcr s =
      let again = linked mcr.mcr_id s mcr.eep_id mcr.aep_id mcr.linked_at_unix in
      let eep_iff = bytes_eq_iff mcr.eep_id [] in
      let aep_iff = bytes_eq_iff mcr.aep_id [] in
      let digest_iff = bytes_eq_iff mcr.lineage_digest again.lineage_digest in ground arith

  -- A lineage record is accepted for a session map exactly when it is the record that compiling
  -- its own identifiers, trackers and time with that session map gives, in every field.
  pub verify_lineage-compile :
      (mcr : MachineConsequenceRecord) (s : SessionMap)
      → (verify_lineage_record mcr s ≡ true)
        ↔ (compile_lineage_record mcr.mcr_id s mcr.eep_id mcr.aep_id mcr.linked_at_unix ≡ ok mcr)
  unfolding verify_lineage_record
  verify_lineage-compile mcr s =
      let made =
        compile_lineage_record_iff mcr.mcr_id s mcr.eep_id mcr.aep_id mcr.linked_at_unix mcr in
      let digests = same_digest_iff mcr s in
      let tests =
        five_tests (bytes_eq mcr.session_map_id s.session_map_id)
          (bytes_eq mcr.merkle_root s.merkle_root)
          (bytes_eq mcr.policy_snapshot_hash s.policy_snapshot_hash)
          (bytes_eq mcr.runtime_snapshot_hash s.runtime_snapshot_hash)
          (mcr.runtime_snapshot_version == s.runtime_snapshot_version)
          (same_digest mcr
            (compile_lineage_record mcr.mcr_id s mcr.eep_id mcr.aep_id mcr.linked_at_unix)) in
      (
        λ h.
            let (id, root, policy, runtime, version, last) = tests.0 h in
            let (eep, aep, digest) = digests.0 last in
            made.1 (
              eep,
              aep,
              same_record _ mcr refl (sym ((bytes_eq_iff _ _).0 id))
                  (sym ((bytes_eq_iff _ _).0 root)) (sym ((bytes_eq_iff _ _).0 policy))
                  (sym ((bytes_eq_iff _ _).0 runtime)) (sym ((==_iff _ _).0 version)) refl refl
                  (sym digest) refl,
            ),
        λ h.
            let (eep, aep, same) = made.0 h in
            tests.1 (
              (bytes_eq_iff _ _).1 (sym (ap (λ m. m.session_map_id) same)),
              (bytes_eq_iff _ _).1 (sym (ap (λ m. m.merkle_root) same)),
              (bytes_eq_iff _ _).1 (sym (ap (λ m. m.policy_snapshot_hash) same)),
              (bytes_eq_iff _ _).1 (sym (ap (λ m. m.runtime_snapshot_hash) same)),
              (==_iff _ _).1 (sym (ap (λ m. m.runtime_snapshot_version) same)),
              digests.1 (eep, aep, sym (ap (λ m. m.lineage_digest) same)),
            ),
      )

  pub verify_lineage-compiled :
      (mcr_id : Bytes) (s : SessionMap) (eep aep : GoString) (linked_at : ℤ)
      (m : MachineConsequenceRecord)
      → compile_lineage_record mcr_id s eep aep linked_at ≡ ok m
      → verify_lineage_record m s ≡ true
  verify_lineage-compiled mcr_id s eep aep linked_at m h =
      let (_, _, same) = (compile_lineage_record_iff mcr_id s eep aep linked_at m).0 h in
      subst (λ n. verify_lineage_record n s ≡ true) same
        ((verify_lineage-compile (linked mcr_id s eep aep linked_at) s).1
          (subst (λ n. compile_lineage_record mcr_id s eep aep linked_at ≡ ok n) (sym same) h))
