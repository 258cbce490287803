-- ===== src/Prelude/Dict.antt =====
-- Go maps with byte array keys, as lists of entries. The order of the entries stands for the order
-- in which a `range` visits them, which Go leaves open.
use mathlib.Core.Path.{◌≡◌}
use mathlib.Core.Bool.{Bool, true, false}
use mathlib.Core.Option.{Option, none, some}
use mathlib.Core.List.{List, [], ◌∷◌}
use native.Mathlib.Omega.{arith}
use veraxis_memory_admissibi.Prelude.Tests.{if◌then◌else◌}
use veraxis_memory_admissibi.Prelude.Bytes.{Bytes, bytes_eq, bytes_eq_iff}

abbrev pub Dict {ℓ} : Type ℓ → Type ℓ
Dict V = List (Bytes × V)

module _ {ℓ} {V : Type ℓ} where
  -- `v, ok := m[k]`
  unfoldable pub get : Dict V → Bytes → Option V
  get [] k = none
  get ((j, v) ∷ m) k = if bytes_eq j k then some v else get m k

  -- `delete(m, k)`
  unfoldable pub remove : Dict V → Bytes → Dict V
  remove [] k = []
  remove ((j, v) ∷ m) k = if bytes_eq j k then remove m k else (j, v) ∷ remove m k

  -- `m[k] = v`
  unfoldable pub put : Dict V → Bytes → V → Dict V
  unfolding remove
  put m k v = (k, v) ∷ remove m k

  pub get-remove :
      (m : Dict V) (k j : Bytes) → get (remove m k) j ≡ (if bytes_eq k j then none else get m j)
  unfolding get remove
  get-remove [] k j = ground arith
  get-remove ((i, v) ∷ m) k j =
      ground (arith, get-remove m k j, bytes_eq_iff i k, bytes_eq_iff i j, bytes_eq_iff k j)

  pub get-put :
      (m : Dict V) (k j : Bytes) (v : V)
      → get (put m k v) j ≡ (if bytes_eq k j then some v else get m j)
  unfolding get put
  get-put m k j v = ground (arith, get-remove m k j)

  -- Whether a key has an entry.
  unfoldable pub has : Dict V → Bytes → Bool
  has [] k = false
  has ((j, v) ∷ m) k = if bytes_eq j k then true else has m k

  -- Every key has one entry.
  abbrev pub IsMap : Dict V → Type 0
  IsMap [] = Unit
  IsMap ((j, v) ∷ m) = (has m j ≡ false) × IsMap m

  has-remove :
      (m : Dict V) (k j : Bytes) → has (remove m k) j ≡ (if bytes_eq k j then false else has m j)
  unfolding has remove
  has-remove [] k j = ground arith
  has-remove ((i, v) ∷ m) k j =
      ground (arith, has-remove m k j, bytes_eq_iff i k, bytes_eq_iff i j, bytes_eq_iff k j)

  pub remove-IsMap : (m : Dict V) (k : Bytes) → IsMap m → IsMap (remove m k)
  unfolding remove
  remove-IsMap [] k h = tt
  remove-IsMap ((j, v) ∷ m) k (fresh, h) = ground (arith, remove-IsMap m k h, has-remove m k j)

  pub put-IsMap : (m : Dict V) (k : Bytes) (v : V) → IsMap m → IsMap (put m k v)
  unfolding put
  put-IsMap m k v h = (ground (arith, has-remove m k k, bytes_eq_iff k k), remove-IsMap m k h)
