-- ===== src/SessionMap/Generate.antt =====
-- When generation returns a map, and which map it is.
use veraxis_memory_admissibi.Prelude.{ℕ, ◌≡◌, ◌==◌, ==_iff, refl, true, false, not, List, length}
use veraxis_memory_admissibi.Prelude.Bytes.{Bytes, GoString}
use veraxis_memory_admissibi.Prelude.Int.{pos, leb_ℤ}
use veraxis_memory_admissibi.Prelude.Result.{ok, reject-ok_elim}
use veraxis_memory_admissibi.Prelude.Time.{Time, Duration}
use veraxis_memory_admissibi.Platform.{Platform}
use veraxis_memory_admissibi.Merkle.{LeafRecord}
use veraxis_memory_admissibi.SessionMap.{
  SessionMap, generate_session_map_with_runtime_snapshot, sign_session_map, unsigned_map, is_empty,
}

module _ ⦃p : Platform⦄ (id : Bytes) (session agent actor task : GoString)
    (tenant context policy runtime : Bytes) (version : ℕ) (leaves : List LeafRecord) (key : Bytes)
    (key_id : GoString) (ttl : Duration) (now : Time) where
  abbrev pub generated : SessionMap
  generated = sign_session_map key (
      unsigned_map id session agent actor task tenant context policy runtime version leaves key_id
        ttl now)

  -- What a generated map holds, and what its arguments were.
  pub generate-ok :
      (s : SessionMap)
      → generate_session_map_with_runtime_snapshot id session agent actor task tenant context policy
          runtime version leaves key key_id ttl now
        ≡ ok s
      → (is_empty leaves ≡ false) × (s ≡ generated)
  unfolding generate_session_map_with_runtime_snapshot
  generate-ok s h = reject-ok_elim (is_empty leaves) _ _ h λ some_leaf h₁.
      reject-ok_elim (not (length key == 64)) _ _ h₁
        λ _ h₂. reject-ok_elim (leb_ℤ ttl (pos 0)) _ _ h₂ λ _ h₃. (some_leaf, cc)

  pub generate_complete :
      is_empty leaves ≡ false
      → length key ≡ 64
      → leb_ℤ ttl (pos 0) ≡ false
      → generate_session_map_with_runtime_snapshot id session agent actor task tenant context policy
          runtime version leaves key key_id ttl now
        ≡ ok generated
  unfolding generate_session_map_with_runtime_snapshot
  generate_complete some_leaf size positive =
      let sized : (length key == 64) ≡ true = (==_iff (length key) 64).1 size in
      rw (some_leaf, sized, positive) refl
