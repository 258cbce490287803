-- ===== src/SessionMap/Attestation.antt =====
-- What the attested bytes of a session map determine, and what they leave open.
use veraxis_memory_admissibi.Prelude.{
  ◌+◌, ◌≡◌, refl, sym, ap, ◌∙◌, ◌++◌, length, arith, length-append, append_inj,
}
use mathlib.Core.List.{append_assoc}
use veraxis_memory_admissibi.Prelude.Bytes.{Bytes, GoString, big_endian, length-big_endian}
use veraxis_memory_admissibi.Prelude.Time.{unix_nano_u64}
use veraxis_memory_admissibi.SessionMap.{SessionMap, attestation_bytes}

-- The bytes before the Merkle root, and those after the signing key's name.
front : SessionMap → Bytes
front s =
    s.version
    ++ (s.session_map_id
        ++ (s.session_id
            ++ (s.agent_id
                ++ (s.actor_id
                    ++ (s.tenant_hash
                        ++ (s.task_id
                            ++ (s.runtime_context_hash
                                ++ (s.policy_snapshot_hash
                                    ++ (s.runtime_snapshot_hash
                                        ++ big_endian 8 s.runtime_snapshot_version)))))))))

back : SessionMap → Bytes
back s =
    s.merkle_root
    ++ (s.signing_key_id
        ++ (big_endian 8 (unix_nano_u64 s.created_at) ++ big_endian 8 (unix_nano_u64 s.expires_at)))

attestation-split : (s : SessionMap) → attestation_bytes s ≡ front s ++ back s
unfolding attestation_bytes front back
attestation-split s = simp append_assoc refl

length-back :
    (s : SessionMap) → length s.merkle_root ≡ 32 → length (back s) ≡ 48 + length s.signing_key_id
unfolding back
length-back s h = simp (length-append, length-big_endian) (omega (arith, h))

-- Two maps of the same attested bytes, whose key names have one length, have one Merkle root.
pub attestation-root :
    (s t : SessionMap)
    → length s.merkle_root ≡ 32
    → length t.merkle_root ≡ 32
    → length s.signing_key_id ≡ length t.signing_key_id
    → attestation_bytes s ≡ attestation_bytes t
    → s.merkle_root ≡ t.merkle_root
unfolding back
attestation-root s t hs ht same_key e =
    let e' = sym (attestation-split s) ∙ e ∙ attestation-split t in
    let sizes = ap length e' in
    let (_, tail) =
      append_inj (front s) (front t) (back s) (back t)
        (omega (
          arith,
          sizes,
          length-append (front s) (back s),
          length-append (front t) (back t),
          length-back s hs,
          length-back t ht,
        ))
        e' in
    (append_inj s.merkle_root t.merkle_root _ _ (omega arith) tail).0

-- The attested bytes stay the same when a part of the session's name moves from its end to the
-- front of the agent's name.
pub attestation-ambiguous :
    (s : SessionMap) (a x b : GoString)
    → attestation_bytes (record s { session_id = a ++ x; agent_id = b })
      ≡ attestation_bytes (record s { session_id = a; agent_id = x ++ b })
unfolding attestation_bytes
attestation-ambiguous s a x b = simp append_assoc refl
