-- ===== src/Quarantine/Snapshot/Canonical.antt =====
-- The snapshot hash and the order in which the maps are visited.
use mathlib.Core.List.{Perm, Pairwise, Pairwise-cons, Mem, not-mem-nil, eq-or-mem_of_mem-cons}
use mathlib.Core.List.Perm
use mathlib.Core.Logic.Or
use native.Mathlib.Decide.{ℕ_discrete}
use veraxis_memory_admissibi.Prelude.{ℕ, ◌≡◌, sym, false, List, [], ◌∷◌, arith}
use veraxis_memory_admissibi.Prelude.Bytes.{
  Bytes, bytes_eq, bytes_eq_iff, bytes_lt_irrefl, bytes_lt_trans, bytes_lt_negative, bytes_lt_total,
}
use veraxis_memory_admissibi.Prelude.Dict
use veraxis_memory_admissibi.Prelude.Dict.{Dict, IsMap, remove-IsMap, put-IsMap}
use veraxis_memory_admissibi.Prelude.Time.{Time}
use veraxis_memory_admissibi.Platform.{Platform, IsLess}
use veraxis_memory_admissibi.Platform.Sort.{IsApart, IsApart-prop, sort_slice-canonical}
use veraxis_memory_admissibi.Quarantine.Event.{EventType, RevocationEvent}
use veraxis_memory_admissibi.Quarantine.Snapshot.{
  Blocks, QuarantineState, TombstoneState, RevocationState, RuntimeSnapshot, no_blocks, apply_type,
  apply_event, apply_events, entry_less, compute_snapshot_hash, compile_snapshot,
}

module _ {V : Type 0} where
  entry_less-IsLess : IsLess (entry_less {V = V})
  entry_less-IsLess = record {
    irrefl = λ x. bytes_lt_irrefl x.0;
    trans = λ x y z. bytes_lt_trans x.0 y.0 z.0;
    negative = λ x y z. bytes_lt_negative x.0 y.0 z.0;
  }

  IsApart-of_ne : (x y : Bytes × V) → bytes_eq x.0 y.0 ≡ false → IsApart entry_less x y
  IsApart-of_ne x y ne = ground (arith, bytes_lt_total x.0 y.0, bytes_eq_iff x.0 y.0)

  -- A key without an entry is apart from every entry.
  IsApart-of_absent :
      (k : Bytes) (v : V) (m : Dict V)
      → Dict.has m k ≡ false
      → (e : Bytes × V) → Mem e m
      → IsApart entry_less (k, v) e
  unfolding Dict.has
  IsApart-of_absent k v [] h e mem = absurd (not-mem-nil mem)
  IsApart-of_absent k v ((j, w) ∷ m) h e mem =
      Or.elim (IsApart-prop entry_less (k, v) e) (eq-or-mem_of_mem-cons mem)
        (λ same.
          rw same
            (IsApart-of_ne (k, v) (j, w) (ground (arith, bytes_eq_iff k j, bytes_eq_iff j k))))
        (IsApart-of_absent k v m (ground arith) e)

  IsMap-IsApart : (m : Dict V) → IsMap m → Pairwise (IsApart entry_less) m
  IsMap-IsApart [] h = Pairwise.nil
  IsMap-IsApart ((k, v) ∷ m) (absent, h) =
      Pairwise-cons.1 (IsApart-of_absent k v m absent, IsMap-IsApart m h)

-- The three maps have one entry a key.
abbrev AreMaps : Blocks → Type 0
AreMaps b = IsMap b.quarantined × IsMap b.tombstoned × IsMap b.revoked

apply_type-AreMaps :
    (t : EventType) (e : RevocationEvent) (b : Blocks) → AreMaps b → AreMaps (apply_type t e b)
unfolding apply_type
apply_type-AreMaps (EventType.unknown n) e b h = h
apply_type-AreMaps t e b (q, d, r) = search (remove-IsMap, put-IsMap)

apply_events-AreMaps :
    (b : Blocks) (es : List RevocationEvent) → AreMaps b → AreMaps (apply_events b es)
unfolding apply_events apply_event
apply_events-AreMaps b [] h = h
apply_events-AreMaps b (e ∷ es) h =
    apply_events-AreMaps (apply_type e.event_type e b) es (apply_type-AreMaps e.event_type e b h)

Bytes-set : IsSet Bytes
Bytes-set = hlevel ℕ_discrete

quarantines_set : IsSet (Dict QuarantineState)
quarantines_set = hlevel Bytes-set

tombstones_set : IsSet (Dict TombstoneState)
tombstones_set = hlevel Bytes-set

revocations_set : IsSet (Dict RevocationState)
revocations_set = hlevel Bytes-set

module _ ⦃p : Platform⦄ where
  sort_dict :
      {V : Type 0} (m : Dict V) (l : Dict V)
      → IsSet (Dict V)
      → IsMap m
      → Perm l m
      → p.sort_slice _ entry_less l ≡ p.sort_slice _ entry_less m
  sort_dict {V} m l list_set is_map perm = sym (
      sort_slice-canonical entry_less entry_less-IsLess list_set m l (Perm.symm perm)
        (IsMap-IsApart m is_map))

  hash_congr :
      (snap : RuntimeSnapshot) (b : Blocks)
      → p.sort_slice _ entry_less b.quarantined ≡ p.sort_slice _ entry_less snap.quarantined
      → p.sort_slice _ entry_less b.tombstoned ≡ p.sort_slice _ entry_less snap.tombstoned
      → p.sort_slice _ entry_less b.revoked ≡ p.sort_slice _ entry_less snap.revoked
      → compute_snapshot_hash (record snap { blocks = b }) ≡ compute_snapshot_hash snap
  unfolding compute_snapshot_hash
  hash_congr snap b q t r = cc

  -- In whatever order the maps of a compiled snapshot are visited, its hash comes out the same.
  pub compile-hash_canonical :
      (events : List RevocationEvent) (version : ℕ) (now : Time) (b : Blocks)
      → Perm b.quarantined (compile_snapshot events version now).quarantined
      → Perm b.tombstoned (compile_snapshot events version now).tombstoned
      → Perm b.revoked (compile_snapshot events version now).revoked
      → compute_snapshot_hash (record (compile_snapshot events version now) { blocks = b })
        ≡ (compile_snapshot events version now).snapshot_hash
  unfolding compile_snapshot compute_snapshot_hash
  compile-hash_canonical events version now b q t r =
      let maps = apply_events-AreMaps no_blocks events (tt, tt, tt) in
      hash_congr (compile_snapshot events version now) b
        (sort_dict _ b.quarantined quarantines_set maps.0 q)
        (sort_dict _ b.tombstoned tombstones_set maps.1 t)
        (sort_dict _ b.revoked revocations_set maps.2 r)
