-- ===== src/Audit/Verify.antt =====
-- What verification of a session map says about it.
use mathlib.Core.List.{Perm}
use mathlib.Core.Path.{subst}
use veraxis_memory_admissibi.Prelude.{
  ℕ, ◌==◌, ◌≡◌, ◌≢◌, ◌⊎◌, ◌↔◌, refl, sym, ap, ◌∙◌, true, false, not, List, [], ◌∷◌, length, arith,
  All, ◌<◌,
}
use veraxis_memory_admissibi.Prelude.Bytes.{Bytes, GoString, bytes_eq_iff, zeros}
use veraxis_memory_admissibi.Prelude.Int.{pos, leb_ℤ}
use veraxis_memory_admissibi.Prelude.Time.{Time, Duration}
use veraxis_memory_admissibi.Prelude.Result.{Result, ok, reject-ok_elim}
use veraxis_memory_admissibi.Platform.{
  Platform, Collision, IsGenerated, IsGenerated-length, verify-sign_generated,
}
use veraxis_memory_admissibi.Merkle.{LeafRecord, build_turn_tree}
use veraxis_memory_admissibi.Merkle.Levels.{length-build_turn_tree}
use veraxis_memory_admissibi.Merkle.Trees.{IsLeaf}
use veraxis_memory_admissibi.Merkle.Binding.{root-binds}
use veraxis_memory_admissibi.SessionMap.{
  SessionMap, generate_session_map_with_runtime_snapshot, sign_session_map, attestation_bytes,
  is_empty, unsigned_map, copy_into,
}
use veraxis_memory_admissibi.SessionMap.Attestation.{attestation-root}
use veraxis_memory_admissibi.Audit.{VerificationResult, verify_session_map}

-- The result of a map that passes.
abbrev pub accepted : VerificationResult
accepted = record { signature_valid = true; merkle_root_valid = true; replay_match = true }

copy_into-length : (b : Bytes) → copy_into (length b) b ≡ b
unfolding zeros
copy_into-length [] = refl
copy_into-length (x ∷ b) = ap (◌∷◌ x) (copy_into-length b)

pub copy_into-full : (n : ℕ) (b : Bytes) → length b ≡ n → copy_into n b ≡ b
copy_into-full n b h = subst (λ m. copy_into m b ≡ b) h (copy_into-length b)

is_empty_iff {ℓ} : {A : Type ℓ} (xs : List A) → (is_empty xs ≡ true) ↔ (xs ≡ [])
is_empty_iff [] = (λ e. refl, λ e. refl)
is_empty_iff (x ∷ xs) = (λ e. absurd (ground arith), λ e. cc)

nonempty_pos {ℓ} : {A : Type ℓ} {xs : List A} → xs ≢ [] → 0 < length xs
nonempty_pos {xs = []} h = absurd (h refl)
nonempty_pos {xs = x ∷ xs} h = omega arith

not_empty {ℓ} : {A : Type ℓ} {xs : List A} → is_empty xs ≡ false → xs ≢ []
not_empty {xs = []} h = absurd (ground arith)
not_empty {xs = x ∷ xs} h = λ e. cc

is_size : {n : ℕ} → not (n == 64) ≡ false → n ≡ 64
is_size h = ground arith

ok_inj {ℓ} :
    {E : Type 0} {A : Type ℓ} {a b : A} (m n : Result E A) → m ≡ ok a → n ≡ ok b → m ≡ n → a ≡ b
ok_inj m n h k e = cc

module _ ⦃p : Platform⦄ where
  -- Verification accepts a map, with all three results true, exactly when the map has a leaf record,
  -- the key has 32 bytes, the leaf records have the map's Merkle root, and the signature is valid for
  -- the attested bytes.
  pub verify-accepted_iff :
      (key : Bytes) (s : SessionMap)
      → (verify_session_map key s ≡ ok accepted) ↔ (
          (s.leaf_records ≢ [])
          × (length key ≡ 32)
          × (build_turn_tree s.leaf_records ≡ s.merkle_root)
          × (p.ed25519_verify key (attestation_bytes s) s.signature ≡ true))
  unfolding verify_session_map
  verify-accepted_iff key s =
      let root_iff = bytes_eq_iff (build_turn_tree s.leaf_records) s.merkle_root in
      let empty_iff = is_empty_iff s.leaf_records in (λ h. ground arith, λ h. ground arith)

  verify-sign_session_map :
      (key : Bytes) (s : SessionMap)
      → s.leaf_records ≢ []
      → IsGenerated key
      → build_turn_tree s.leaf_records ≡ s.merkle_root
      → verify_session_map (p.ed25519_public key) (sign_session_map key s) ≡ ok accepted
  unfolding sign_session_map attestation_bytes
  verify-sign_session_map key s some_leaf generated root =
      let message = attestation_bytes s in
      (verify-accepted_iff (p.ed25519_public key) (sign_session_map key s)).1 (
        some_leaf,
        p.length-public key (IsGenerated-length key generated),
        root,
        subst (λ sig. p.ed25519_verify (p.ed25519_public key) message sig ≡ true)
            (sym (
              copy_into-full 64 (p.ed25519_sign key message)
                (p.length-sign key message (IsGenerated-length key generated))))
            (verify-sign_generated key message generated),
      )

  -- A session map that generation returns for a key that ed25519 generated is accepted, with all
  -- three results true, under the public key of that key.
  pub verify-generate :
      (id : Bytes) (session agent actor task : GoString) (tenant context policy runtime : Bytes)
      (version : ℕ) (leaves : List LeafRecord) (key : Bytes) (key_id : GoString) (ttl : Duration)
      (now : Time) (s : SessionMap)
      → IsGenerated key
      → generate_session_map_with_runtime_snapshot id session agent actor task tenant context policy
          runtime version leaves key key_id ttl now
        ≡ ok s
      → verify_session_map (p.ed25519_public key) s ≡ ok accepted
  unfolding generate_session_map_with_runtime_snapshot
  verify-generate id session agent actor task tenant context policy runtime version leaves key
        key_id ttl now s generated h =
      reject-ok_elim (is_empty leaves) _ _ h λ some_leaf h₁.
        reject-ok_elim (not (length key == 64)) _ _ h₁ λ _ h₂.
          reject-ok_elim (leb_ℤ ttl (pos 0)) _ _ h₂ λ _ h₃.
            subst (λ t. verify_session_map (p.ed25519_public key) t ≡ ok accepted)
              (ok_inj _ _ refl refl h₃)
              (verify-sign_session_map key
                (unsigned_map id session agent actor task tenant context policy runtime version
                  leaves key_id ttl now)
                (not_empty some_leaf) generated refl)

  -- Two maps that verification accepts, whose attested bytes are equal and whose key names have one
  -- length, have the same leaf records up to order, or a SHA-256 collision is known.
  pub verify-binds_leaves :
      (key : Bytes) (s t : SessionMap)
      → All IsLeaf s.leaf_records
      → All IsLeaf t.leaf_records
      → length s.signing_key_id ≡ length t.signing_key_id
      → attestation_bytes s ≡ attestation_bytes t
      → verify_session_map key s ≡ ok accepted
      → verify_session_map key t ≡ ok accepted
      → Perm s.leaf_records t.leaf_records ⊎ Collision
  verify-binds_leaves key s t hs ht same_key e vs vt =
      let (some_s, _, root_s, _) = (verify-accepted_iff key s).0 vs in
      let (some_t, _, root_t, _) = (verify-accepted_iff key t).0 vt in
      let wide = λ (l : List LeafRecord). length-build_turn_tree l in
      let roots =
        attestation-root s t (ap length (sym root_s) ∙ wide s.leaf_records)
          (ap length (sym root_t) ∙ wide t.leaf_records) same_key e in
      root-binds s.leaf_records t.leaf_records (nonempty_pos some_s) (nonempty_pos some_t) hs ht
        (root_s ∙ roots ∙ sym root_t)
