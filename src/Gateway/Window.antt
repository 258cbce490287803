-- ===== src/Gateway/Window.antt =====
-- What sanitising does to the window, and the leaves that it records.
use veraxis_memory_admissibi.Prelude.{
  ℕ, ◌≡◌, ◌≢◌, ◌++◌, ◌⊎◌, inl, inr, refl, sym, ap, ◌∙◌, false, leb, List, [], ◌∷◌, map, arith,
  length, modify, get_elem?, All, get_elem?-modify_ne, Bool-cases,
}
use veraxis_memory_admissibi.Prelude.Bytes.{GoString}
use veraxis_memory_admissibi.Prelude.Int.{ℤ, pos, negsuc}
use veraxis_memory_admissibi.Platform.{Platform}
use veraxis_memory_admissibi.Evaluate.{Decision}
use veraxis_memory_admissibi.Gateway.{
  LlmMessage, MemoryContextBinding, ProfileCache, ClientWrapper, Turn, verdict, injects,
  sanitize_content, on_content, out_of_range, to_index, leaf, sanitize_binding, sanitize_bindings,
  constraints_of,
}
use veraxis_memory_admissibi.Gateway.Messages.{
  blank, DiffersAt, DiffersAt-modify, DiffersAt-constant, DiffersAt-length, roles, roles-modify,
  modify-cong, modify_beyond,
}

-- A decision that does not inject puts a fixed text in place of the content.
sanitize_content_constant :
    (d : Decision) (constraints c c' : GoString)
    → injects d ≡ false
    → sanitize_content d constraints c ≡ sanitize_content d constraints c'
unfolding injects sanitize_content
sanitize_content_constant d constraints c c' h = ground arith

in_range : (i : ℤ) (n : ℕ) → out_of_range i n ≡ false → i ≡ pos (to_index i)
in_range (pos i) n h = refl
in_range (negsuc i) n h = absurd (cc)

module _ ⦃p : Platform⦄ (w : ClientWrapper) (profiles : ProfileCache) (turn : Turn) where
  abbrev pub decision_of : MemoryContextBinding → Decision
  decision_of b = (verdict w.runtime_monitor turn b.memory_id (profiles b.memory_id)).0

  -- What a round does to the window.
  abbrev pub round : MemoryContextBinding → List LlmMessage → List LlmMessage
  round b xs = (sanitize_binding w profiles turn xs b).0

  round_cases :
      (b : MemoryContextBinding) (xs : List LlmMessage)
      → (round b xs ≡ xs)
        ⊎ (round b xs
            ≡ modify xs (to_index b.message_idx) (
                on_content
                  (sanitize_content (decision_of b) (constraints_of (profiles b.memory_id)))))
  unfolding sanitize_binding
  round_cases b xs = elim (Bool-cases (out_of_range b.message_idx (length xs))) [
    | inl out ↦ inl (rw (round, out) refl)
    | inr within ↦ inr (rw (round, within) refl)
  ]

  -- The leaf of a round depends on the window by its length alone.
  round-leaf :
      (b : MemoryContextBinding) (xs ys : List LlmMessage)
      → length xs ≡ length ys
      → (sanitize_binding w profiles turn xs b).1 ≡ (sanitize_binding w profiles turn ys b).1
  unfolding sanitize_binding
  round-leaf b xs ys h = elim (Bool-cases (out_of_range b.message_idx (length xs))) [
    | inl out ↦ rw (out, rw h at out) refl
    | inr within ↦ rw (within, rw h at within) refl
  ]

  -- In a round both windows change in the same way, or neither changes.
  round-same :
      (b : MemoryContextBinding) (xs ys : List LlmMessage)
      → length xs ≡ length ys
      → ((round b xs ≡ xs) × (round b ys ≡ ys))
        ⊎ ((f : GoString → GoString) × (round b xs
              ≡ modify xs (to_index b.message_idx) (on_content f))
            × (round b ys ≡ modify ys (to_index b.message_idx) (on_content f)))
  unfolding sanitize_binding
  round-same b xs ys h = elim (Bool-cases (out_of_range b.message_idx (length xs))) [
    | inl out ↦ inl (rw (round, out) refl, rw (round, rw h at out) refl)
    | inr within ↦ inr (
      sanitize_content (decision_of b) (constraints_of (profiles b.memory_id)),
      rw (round, within) refl,
      rw (round, rw h at within) refl,
    )
  ]

  round-DiffersAt :
      (i : ℕ) (b : MemoryContextBinding) (xs ys : List LlmMessage)
      → DiffersAt i xs ys
      → DiffersAt i (round b xs) (round b ys)
  round-DiffersAt i b xs ys h = elim (round-same b xs ys (DiffersAt-length i xs ys h)) [
    | inl (same_x, same_y) ↦ rw (same_x, same_y) h
    | inr (f, ex, ey) ↦ rw (ex, ey) (DiffersAt-modify i (to_index b.message_idx) f xs ys h)
  ]

  round-withheld :
      (i : ℕ) (b : MemoryContextBinding) (xs ys : List LlmMessage)
      → b.message_idx ≡ pos i
      → injects (decision_of b) ≡ false
      → DiffersAt i xs ys
      → round b xs ≡ round b ys
  unfolding sanitize_binding
  round-withheld i b xs ys at_i withheld h =
      let sizes = DiffersAt-length i xs ys h in
      let constraints = constraints_of (profiles b.memory_id) in
      let fixed = λ (zs : List LlmMessage).
        modify-cong zs i (on_content (sanitize_content (decision_of b) constraints))
          (on_content (λ c. sanitize_content (decision_of b) constraints []))
          (λ m.
            ap (λ c. record m { content = c })
              (sanitize_content_constant (decision_of b) constraints m.content [] withheld)) in
      elim (Bool-cases (leb (length xs) i)) [
        | inl out ↦
            rw (round, at_i, out, rw sizes at out)
              (sym (modify_beyond xs i blank (ground arith))
                ∙ h
                ∙ modify_beyond ys i blank (ground arith))
        | inr within ↦
            rw (round, at_i, within, rw sizes at within)
              (fixed xs
                ∙ DiffersAt-constant i (sanitize_content (decision_of b) constraints []) xs ys h
                ∙ sym (fixed ys))
      ]

  pub round-other :
      (i : ℕ) (b : MemoryContextBinding) (xs : List LlmMessage)
      → b.message_idx ≢ pos i
      → get_elem? (round b xs) i ≡ get_elem? xs i
  unfolding sanitize_binding
  round-other i b xs other = elim (Bool-cases (out_of_range b.message_idx (length xs))) [
    | inl out ↦ rw (round, out) refl
    | inr within ↦
        rw (round, within)
          (get_elem?-modify_ne xs (to_index b.message_idx) i _
            (λ e. other (in_range b.message_idx (length xs) within ∙ ap pos e)))
  ]

  round-roles : (b : MemoryContextBinding) (xs : List LlmMessage) → roles (round b xs) ≡ roles xs
  round-roles b xs = elim (round_cases b xs) [
    | inl same ↦ ap roles same
    | inr changed ↦ ap roles changed ∙ roles-modify _ xs (to_index b.message_idx)
  ]

  round-id :
      (b : MemoryContextBinding) (xs : List LlmMessage)
      → (sanitize_binding w profiles turn xs b).1.memory_id ≡ b.memory_id
  unfolding sanitize_binding leaf
  round-id b xs = elim (Bool-cases (out_of_range b.message_idx (length xs))) [
    | inl out ↦ rw (out) refl
    | inr within ↦ rw (within) refl
  ]

  -- When a binding refers to message `i` and the decision on its memory is not to inject it, windows
  -- that differ at most in the content of message `i` are sanitised to the same window and the same
  -- leaves, whatever the bindings before and after it are.
  pub sanitize-withheld :
      (i : ℕ) (before : List MemoryContextBinding) (b : MemoryContextBinding)
      (after : List MemoryContextBinding) (xs ys : List LlmMessage)
      → b.message_idx ≡ pos i
      → injects (decision_of b) ≡ false
      → DiffersAt i xs ys
      → sanitize_bindings w profiles turn xs (before ++ b ∷ after)
        ≡ sanitize_bindings w profiles turn ys (before ++ b ∷ after)
  unfolding sanitize_bindings
  sanitize-withheld i [] b after xs ys at_i withheld h =
      let same = round-withheld i b xs ys at_i withheld h in
      let leaves = round-leaf b xs ys (DiffersAt-length i xs ys h) in
      ap
        (λ zs. (
          (sanitize_bindings w profiles turn zs after).0,
          (sanitize_binding w profiles turn xs b).1
              ∷ (sanitize_bindings w profiles turn zs after).1,
        ))
        same
      ∙ ap
          (λ l. (
            (sanitize_bindings w profiles turn (round b ys) after).0,
            l ∷ (sanitize_bindings w profiles turn (round b ys) after).1,
          ))
          leaves
  sanitize-withheld i (a ∷ before) b after xs ys at_i withheld h =
      let leaves = round-leaf a xs ys (DiffersAt-length i xs ys h) in
      let rest =
        sanitize-withheld i before b after (round a xs) (round a ys) at_i withheld
          (round-DiffersAt i a xs ys h) in
      ap (λ r. (r.0, (sanitize_binding w profiles turn xs a).1 ∷ r.1)) rest
      ∙ ap
          (λ l. (
            (sanitize_bindings w profiles turn (round a ys) (before ++ b ∷ after)).0,
            l ∷ (sanitize_bindings w profiles turn (round a ys) (before ++ b ∷ after)).1,
          ))
          leaves

  -- A message whose index no binding has is left as it is.
  pub sanitize-unbound :
      (i : ℕ) (bs : List MemoryContextBinding) (xs : List LlmMessage)
      → All (λ b. b.message_idx ≢ pos i) bs
      → get_elem? (sanitize_bindings w profiles turn xs bs).0 i ≡ get_elem? xs i
  unfolding sanitize_bindings
  sanitize-unbound i [] xs h = refl
  sanitize-unbound i (b ∷ bs) xs (other, h) =
      sanitize-unbound i bs (round b xs) h ∙ round-other i b xs other

  -- There is one leaf for each binding, in order, with the binding's memory id, and the window keeps
  -- the roles of its messages, and so its length.
  pub sanitize-shape :
      (bs : List MemoryContextBinding) (xs : List LlmMessage)
      → (map (λ l. l.memory_id) (sanitize_bindings w profiles turn xs bs).1
          ≡ map (λ b. b.memory_id) bs)
        × (roles (sanitize_bindings w profiles turn xs bs).0 ≡ roles xs)
  unfolding sanitize_bindings
  sanitize-shape [] xs = (refl, refl)
  sanitize-shape (b ∷ bs) xs =
      let (ids, same) = sanitize-shape bs (round b xs) in
      (
        ap (λ i. i ∷ map (λ l. l.memory_id) (sanitize_bindings w profiles turn (round b xs) bs).1)
              (round-id b xs)
            ∙ ap (◌∷◌ b.memory_id) ids,
        same ∙ round-roles b xs,
      )
