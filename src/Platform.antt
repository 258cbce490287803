-- ===== src/Platform.antt =====
-- What the components use of Go's packages crypto/sha256, crypto/ed25519 and sort:
-- operations with the behaviour that their documentation states.
pub mod Sort
use mathlib.Core.List.{Perm, Pairwise}
use mathlib.Core.Path.{subst}
use veraxis_memory_admissibi.Prelude.{ℕ, ◌≡◌, ◌≢◌, sym, Bool, true, false, Option, List, length}
use veraxis_memory_admissibi.Prelude.Bytes.{Bytes}

-- `less` orders like `<` on some key.
pub record IsLess {A : Type 0} (less : A → A → Bool) : Type 0 where
  pub irrefl : (x : A) → less x x ≡ false
  pub trans : (x y z : A) → less x y ≡ true → less y z ≡ true → less x z ≡ true
  pub negative : (x y z : A) → less x y ≡ false → less y z ≡ false → less x z ≡ false

pub record Platform : Type 1 where
  -- sha256.Sum256 and sha256.New
  pub sha256 : Bytes → Bytes
  pub length-sha256 : (b : Bytes) → length (sha256 b) ≡ 32
  -- sort.Slice, which need not be stable
  pub sort_slice : (A : Type 0) → (A → A → Bool) → List A → List A
  pub sort_slice-perm :
      (A : Type 0) (less : A → A → Bool) (xs : List A) → Perm (sort_slice A less xs) xs
  pub sort_slice-sorted :
      (A : Type 0) (less : A → A → Bool) (xs : List A)
      → IsLess less
      → Pairwise (λ x y. less y x ≡ false) (sort_slice A less xs)
  -- ed25519.NewKeyFromSeed, ed25519.Sign and ed25519.Verify, and the public key of a private key
  pub ed25519_new_key : Bytes → Bytes
  pub ed25519_sign : Bytes → Bytes → Bytes
  pub ed25519_verify : Bytes → Bytes → Bytes → Bool
  pub ed25519_public : Bytes → Bytes
  pub length-sign : (key message : Bytes) → length key ≡ 64 → length (ed25519_sign key message) ≡ 64
  pub length-public : (key : Bytes) → length key ≡ 64 → length (ed25519_public key) ≡ 32
  pub length-new_key : (seed : Bytes) → length seed ≡ 32 → length (ed25519_new_key seed) ≡ 64
  pub verify-sign :
      (seed message : Bytes)
      → length seed ≡ 32
      → ed25519_verify
          (ed25519_public (ed25519_new_key seed))
          message
          (ed25519_sign (ed25519_new_key seed) message)
        ≡ true

-- A private key that ed25519 made from a seed. A key of 64 bytes may be none: its last 32 bytes need
-- not be the public key of its first 32 bytes.
abbrev pub IsGenerated : ⦃p : Platform⦄ → Bytes → Type 0
IsGenerated ⦃p⦄ key = (seed : Bytes) × (length seed ≡ 32) × (key ≡ p.ed25519_new_key seed)

pub IsGenerated-length : ⦃p : Platform⦄ (key : Bytes) → IsGenerated key → length key ≡ 64
IsGenerated-length ⦃p⦄ key (seed, size, made) =
    subst (λ k. length k ≡ 64) (sym made) (p.length-new_key seed size)

-- What a generated key signs is valid under its public key.
pub verify-sign_generated :
    ⦃p : Platform⦄ (key message : Bytes)
    → IsGenerated key
    → p.ed25519_verify (p.ed25519_public key) message (p.ed25519_sign key message) ≡ true
verify-sign_generated ⦃p⦄ key message (seed, size, made) =
    subst (λ k. p.ed25519_verify (p.ed25519_public k) message (p.ed25519_sign k message) ≡ true)
      (sym made) (p.verify-sign seed message size)

-- Two messages with one digest.
abbrev pub Collision : ⦃p : Platform⦄ → Type 0
Collision ⦃p⦄ = (x : Bytes) × (y : Bytes) × (x ≢ y) × (p.sha256 x ≡ p.sha256 y)
