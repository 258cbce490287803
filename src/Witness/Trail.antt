-- ===== src/Witness/Trail.antt =====
-- Trees of leaves, signed session maps, lineage records and the event ledger.
use mathlib.Core.List.{Perm, Pairwise, Pairwise-cons, not-mem-nil, mem-cons}
use mathlib.Core.List.Perm
use mathlib.Core.Logic.Or
use mathlib.Core.Path.{subst}
use veraxis_memory_admissibi.Prelude.{
  ◌≡◌, ◌≢◌, ◌↔◌, ◌⊎◌, refl, sym, ◌∙◌, true, List, [], ◌∷◌, ◌++◌, length, All, arith, replicate,
}
use veraxis_memory_admissibi.Prelude.Bytes.{Bytes, text, bytes_lt, zeros}
use veraxis_memory_admissibi.Prelude.Int.{pos}
use veraxis_memory_admissibi.Prelude.Result.{ok, err}
use veraxis_memory_admissibi.Platform.{Platform, Collision, IsGenerated}
use veraxis_memory_admissibi.Platform.Sort.{IsApart, IsApart-prop}
use veraxis_memory_admissibi.Merkle.{LeafRecord, leaf_less, build_turn_tree}
use veraxis_memory_admissibi.Merkle.Trees.{IsLeaf}
use veraxis_memory_admissibi.Merkle.Binding.{root-binds}
use veraxis_memory_admissibi.Merkle.Order.{root-order}
use veraxis_memory_admissibi.SessionMap.{
  SessionMap, generate_session_map_with_runtime_snapshot, sign_session_map, unsigned_map,
  attestation_bytes,
}
use veraxis_memory_admissibi.SessionMap.Attestation.{attestation-ambiguous}
use veraxis_memory_admissibi.Audit.{verify_session_map}
use veraxis_memory_admissibi.Audit.Verify.{
  accepted, verify-generate, verify-binds_leaves, verify-accepted_iff,
}
use veraxis_memory_admissibi.Audit.Lineage.{
  MachineConsequenceRecord, linked, compile_lineage_record, verify_lineage_record,
  verify_lineage-compile,
}
use veraxis_memory_admissibi.Quarantine.Event.{EventType}
use veraxis_memory_admissibi.Quarantine.Ledger.{FileLedger, stuck, replay_from, replay_genesis}
use veraxis_memory_admissibi.Quarantine.Ledger.Sound.{replay-ends}
use veraxis_memory_admissibi.Quarantine.Ledger.Exact.{Holds, replay_iff}
use veraxis_memory_admissibi.Quarantine.Ledger.RoundTrip.{IsStored, append_each, replay-append_each}
use veraxis_memory_admissibi.Witness.Toy.{toy}
use veraxis_memory_admissibi.Witness.Sample.{id_a, id_b, hash_of, leaf_of, event, codec}

instance here : Platform
here = toy

abbrev leaves : List LeafRecord
leaves = leaf_of id_a ∷ leaf_of id_b ∷ []

abbrev swapped : List LeafRecord
swapped = leaf_of id_b ∷ leaf_of id_a ∷ []

leaf_of-IsLeaf : (id : Bytes) → length id ≡ 16 → IsLeaf (leaf_of id)
leaf_of-IsLeaf id h = record {
  id_size = h;
  hash_size = refl;
  policy_size = refl;
  reason_size = refl;
}

leaves-IsApart : Pairwise (IsApart leaf_less) leaves
unfolding bytes_lt
leaves-IsApart = Pairwise-cons.1 (
  λ l m.
      Or.elim (IsApart-prop leaf_less (leaf_of id_a) l) (mem-cons.0 m) (λ e. rw e refl)
        (λ k. absurd (not-mem-nil k)),
  Pairwise-cons.1 (λ l m. absurd (not-mem-nil m), Pairwise.nil),
)

root-order_example : build_turn_tree leaves ≡ build_turn_tree swapped
root-order_example =
    root-order leaves swapped (Perm.swap (leaf_of id_b) (leaf_of id_a) []) leaves-IsApart

root-binds_example : Perm leaves swapped ⊎ Collision
root-binds_example =
    root-binds leaves swapped (omega arith) (omega arith)
      (leaf_of-IsLeaf id_a refl, (leaf_of-IsLeaf id_b refl, tt))
      (leaf_of-IsLeaf id_b refl, (leaf_of-IsLeaf id_a refl, tt))
      (root-order leaves swapped (Perm.swap (leaf_of id_b) (leaf_of id_a) []) leaves-IsApart)

abbrev key : Bytes
key = replicate 64 9

key-IsGenerated : IsGenerated key
unfolding here
key-IsGenerated = (replicate 32 9, refl, refl)

abbrev signed : SessionMap
signed = sign_session_map key (
    unsigned_map id_a (text "s") (text "a") (text "u") (text "t") (hash_of 1) (hash_of 2)
      (hash_of 3) (zeros 32) 0 leaves (text "k") (pos 10) (pos 0))

signed-accepted : verify_session_map (here.ed25519_public key) signed ≡ ok accepted
unfolding generate_session_map_with_runtime_snapshot
signed-accepted =
    verify-generate id_a (text "s") (text "a") (text "u") (text "t") (hash_of 1) (hash_of 2)
      (hash_of 3) (zeros 32) 0 leaves key (text "k") (pos 10) (pos 0) signed key-IsGenerated refl

verify-generate_example : verify_session_map (here.ed25519_public key) signed ≡ ok accepted
unfolding generate_session_map_with_runtime_snapshot
verify-generate_example =
    verify-generate id_a (text "s") (text "a") (text "u") (text "t") (hash_of 1) (hash_of 2)
      (hash_of 3) (zeros 32) 0 leaves key (text "k") (pos 10) (pos 0) signed key-IsGenerated refl

verify-accepted_iff_example :
    (verify_session_map (here.ed25519_public key) signed ≡ ok accepted) ↔ (
      (signed.leaf_records ≢ [])
      × (length (here.ed25519_public key) ≡ 32)
      × (build_turn_tree signed.leaf_records ≡ signed.merkle_root)
      × (here.ed25519_verify (here.ed25519_public key) (attestation_bytes signed) signed.signature
          ≡ true))
verify-accepted_iff_example = verify-accepted_iff (here.ed25519_public key) signed

attestation-ambiguous_example :
    attestation_bytes (record signed { session_id = text "s" ++ text "x"; agent_id = text "a" })
    ≡ attestation_bytes (record signed { session_id = text "s"; agent_id = text "x" ++ text "a" })
attestation-ambiguous_example = attestation-ambiguous signed (text "s") (text "x") (text "a")

-- The same map with its leaves in the other order.
abbrev reordered : SessionMap
reordered = record signed { leaf_records = swapped }

reordered_attestation : attestation_bytes signed ≡ attestation_bytes reordered
unfolding attestation_bytes
reordered_attestation = refl

reordered-accepted : verify_session_map (here.ed25519_public key) reordered ≡ ok accepted
unfolding sign_session_map
reordered-accepted =
    let (_, size, root, sig) =
      (verify-accepted_iff (here.ed25519_public key) signed).0 signed-accepted in
    (verify-accepted_iff (here.ed25519_public key) reordered).1 (
      λ e. cc,
      size,
      sym (root-order leaves swapped (Perm.swap (leaf_of id_b) (leaf_of id_a) []) leaves-IsApart)
          ∙ root,
      subst (λ m. here.ed25519_verify (here.ed25519_public key) m signed.signature ≡ true)
          reordered_attestation sig,
    )

leaves_sized : All IsLeaf leaves
leaves_sized = (leaf_of-IsLeaf id_a refl, (leaf_of-IsLeaf id_b refl, tt))

swapped_sized : All IsLeaf swapped
swapped_sized = (leaf_of-IsLeaf id_b refl, (leaf_of-IsLeaf id_a refl, tt))

verify-binds_leaves_example : Perm leaves swapped ⊎ Collision
unfolding sign_session_map
verify-binds_leaves_example =
    verify-binds_leaves (here.ed25519_public key) signed reordered leaves_sized swapped_sized refl
      reordered_attestation signed-accepted reordered-accepted

abbrev record_of_turn : MachineConsequenceRecord
record_of_turn = linked id_b signed (text "eep") (text "aep") (pos 5)

verify_lineage-compile_example :
    (verify_lineage_record record_of_turn signed ≡ true)
    ↔ (compile_lineage_record id_b signed (text "eep") (text "aep") (pos 5) ≡ ok record_of_turn)
verify_lineage-compile_example = verify_lineage-compile record_of_turn signed

abbrev empty_ledger : FileLedger
empty_ledger = record { is_open = true; content = [] }

revocation-IsStored :
    (id : Bytes) → length id ≡ 16 → IsStored codec (event id EventType.revoke_memory)
revocation-IsStored id h = record {
  payload = id;
  encoded = refl;
  fits = (omega arith, omega arith);
  decoded = refl;
}

replay-append_each_example :
    replay_genesis codec (
      append_each codec
        (event id_a EventType.revoke_memory ∷ event id_b EventType.revoke_memory ∷ [])
        empty_ledger)
    ≡ ok (event id_a EventType.revoke_memory ∷ event id_b EventType.revoke_memory ∷ [])
replay-append_each_example =
    replay-append_each codec
      (event id_a EventType.revoke_memory ∷ event id_b EventType.revoke_memory ∷ []) [] empty_ledger
      refl (revocation-IsStored id_a refl, (revocation-IsStored id_b refl, tt)) refl

replay-ends_example : replay_from codec (hash_of 7) ≢ err stuck
replay-ends_example = replay-ends codec (hash_of 7)

abbrev two_bytes : Bytes
two_bytes = 0 ∷ 255 ∷ []

replay_iff_example : (replay_from codec two_bytes ≡ ok []) ↔ Holds codec two_bytes []
replay_iff_example = replay_iff codec two_bytes [] (omega arith, (omega arith, tt))
