-- ===== src/Witness/Window.antt =====
-- The sanitised window.
use veraxis_memory_admissibi.Prelude.{
  ◌≡◌, ◌++◌, ◌⊎◌, get_elem?, refl, false, some, none, List, [], ◌∷◌, map,
}
use veraxis_memory_admissibi.Prelude.Bytes.{GoString, text, bytes_eq}
use veraxis_memory_admissibi.Platform.{Platform}
use veraxis_memory_admissibi.Gateway.{
  MemoryProfile, LlmMessage, MemoryContextBinding, verdict, injects, sanitize_bindings,
}
use veraxis_memory_admissibi.Gateway.Messages.{roles}
use veraxis_memory_admissibi.Gateway.Kept.{
  IsPermitted, under_constraints, tombstones, sanitize-kept,
}
use mathlib.Core.List.{Mem}
use veraxis_memory_admissibi.Gateway.Window.{sanitize-withheld, sanitize-shape}
use veraxis_memory_admissibi.Witness.Toy.{toy}
use veraxis_memory_admissibi.Witness.Sample.{id_a, id_b, cache, turn, client, message, bind}

instance here : Platform
here = toy

abbrev window : List LlmMessage
window = message (text "hello") ∷ message (text "secret") ∷ []

abbrev other_window : List LlmMessage
other_window = message (text "hello") ∷ message (text "public") ∷ []

abbrev bindings : List MemoryContextBinding
bindings = (bind id_b 0 ∷ []) ++ bind id_a 1 ∷ []

sanitize-kept_example :
    ((found : MemoryProfile) × (cache id_a ≡ some found)
      × IsPermitted none turn id_a found
      × (get_elem? (sanitize_bindings client cache turn window bindings).0 1
          ≡ some (message (under_constraints found.usage_constraints (text "secret")))))
    ⊎ ((¬ ((found : MemoryProfile) × (cache id_a ≡ some found) × IsPermitted none turn id_a found))
        × ((stub : GoString) × Mem stub tombstones
            × (get_elem? (sanitize_bindings client cache turn window bindings).0 1
                ≡ some (message stub))))
sanitize-kept_example =
    sanitize-kept client cache turn 1 (bind id_b 0 ∷ []) (bind id_a 1) [] window
      (message (text "secret")) refl (λ e. cc, tt) tt refl

-- A memory that the cache does not know.
unknown_withheld : injects (verdict none turn id_b (cache id_b)).0 ≡ false
unfolding injects verdict bytes_eq
unknown_withheld = refl

sanitize-withheld_example :
    sanitize_bindings client cache turn window (bind id_a 0 ∷ bind id_b 1 ∷ bind id_a 1 ∷ [])
    ≡ sanitize_bindings client cache turn other_window
        (bind id_a 0 ∷ bind id_b 1 ∷ bind id_a 1 ∷ [])
sanitize-withheld_example =
    sanitize-withheld client cache turn 1 (bind id_a 0 ∷ []) (bind id_b 1) (bind id_a 1 ∷ []) window
      other_window refl unknown_withheld refl

sanitize-shape_example :
    (map
        (λ l. l.memory_id)
        (sanitize_bindings client cache turn window (bind id_b 1 ∷ bind id_a 7 ∷ [])).1
      ≡ map (λ (b : MemoryContextBinding). b.memory_id) (bind id_b 1 ∷ bind id_a 7 ∷ []))
    × (roles (sanitize_bindings client cache turn window (bind id_b 1 ∷ bind id_a 7 ∷ [])).0
        ≡ roles window)
sanitize-shape_example = sanitize-shape client cache turn (bind id_b 1 ∷ bind id_a 7 ∷ []) window
