-- ===== src/Gateway/Messages.antt =====
-- Windows that differ in the content of one message.
use mathlib.Core.Path.{subst}
use veraxis_memory_admissibi.Prelude.{
  ℕ-eq-cases, ℕ, zero, suc, ◌≡◌, ◌≢◌, ◌≤◌, inl, inr, refl, sym, ap, ◌∙◌, List, [], ◌∷◌, map, arith,
  length, modify, length-modify,
}
use veraxis_memory_admissibi.Prelude.Bytes.{GoString}
use veraxis_memory_admissibi.Gateway.{LlmMessage, on_content}

-- The message without its content.
abbrev pub blank : LlmMessage → LlmMessage
blank = on_content (λ c. [])

-- Two windows that differ at most in the content of message `i`.
abbrev pub DiffersAt : ℕ → List LlmMessage → List LlmMessage → Type 0
DiffersAt i xs ys = modify xs i blank ≡ modify ys i blank

pub modify-modify {ℓ} :
    {A : Type ℓ} (xs : List A) (i : ℕ) (f g : A → A)
    → modify (modify xs i f) i g ≡ modify xs i (λ a. g (f a))
modify-modify [] i f g = refl
modify-modify (x ∷ xs) zero f g = refl
modify-modify (x ∷ xs) (suc i) f g = ap (◌∷◌ x) (modify-modify xs i f g)

pub modify_comm {ℓ} :
    {A : Type ℓ} (xs : List A) (i j : ℕ) (f g : A → A)
    → i ≢ j
    → modify (modify xs i f) j g ≡ modify (modify xs j g) i f
modify_comm [] i j f g h = refl
modify_comm (x ∷ xs) zero zero f g h = absurd (h refl)
modify_comm (x ∷ xs) zero (suc j) f g h = refl
modify_comm (x ∷ xs) (suc i) zero f g h = refl
modify_comm (x ∷ xs) (suc i) (suc j) f g h = ap (◌∷◌ x) (modify_comm xs i j f g (λ e. h (ap suc e)))

-- Rewriting a content keeps the windows as they are elsewhere.
pub DiffersAt-modify :
    (i j : ℕ) (f : GoString → GoString) (xs ys : List LlmMessage)
    → DiffersAt i xs ys
    → DiffersAt i (modify xs j (on_content f)) (modify ys j (on_content f))
DiffersAt-modify i j f xs ys h = elim (ℕ-eq-cases i j) [
  | inl same ↦
      subst (λ k. DiffersAt i (modify xs k (on_content f)) (modify ys k (on_content f))) same
        (modify-modify xs i (on_content f) blank
          ∙ h
          ∙ sym (modify-modify ys i (on_content f) blank))
  | inr other ↦
      modify_comm xs j i (on_content f) blank (λ e. other (sym e))
      ∙ ap (λ zs. modify zs j (on_content f)) h
      ∙ sym (modify_comm ys j i (on_content f) blank (λ e. other (sym e)))
]

-- A fixed text in place of the content makes the windows equal.
pub DiffersAt-constant :
    (i : ℕ) (t : GoString) (xs ys : List LlmMessage)
    → DiffersAt i xs ys
    → modify xs i (on_content (λ c. t)) ≡ modify ys i (on_content (λ c. t))
DiffersAt-constant i t xs ys h =
    sym (modify-modify xs i blank (on_content (λ c. t)))
    ∙ ap (λ zs. modify zs i (on_content (λ c. t))) h
    ∙ modify-modify ys i blank (on_content (λ c. t))

pub DiffersAt-length : (i : ℕ) (xs ys : List LlmMessage) → DiffersAt i xs ys → length xs ≡ length ys
DiffersAt-length i xs ys h = sym (length-modify xs i blank) ∙ ap length h ∙ length-modify ys i blank

abbrev pub roles : List LlmMessage → List GoString
roles = map (λ m. m.role)

pub roles-modify :
    (f : GoString → GoString) (xs : List LlmMessage) (i : ℕ)
    → roles (modify xs i (on_content f)) ≡ roles xs
roles-modify f [] i = refl
roles-modify f (x ∷ xs) zero = refl
roles-modify f (x ∷ xs) (suc i) = ap (◌∷◌ x.role) (roles-modify f xs i)

pub modify-cong {ℓ} :
    {A : Type ℓ} (xs : List A) (i : ℕ) (f g : A → A)
    → ((a : A) → f a ≡ g a)
    → modify xs i f ≡ modify xs i g
modify-cong [] i f g h = refl
modify-cong (x ∷ xs) zero f g h = ap (λ y. y ∷ xs) (h x)
modify-cong (x ∷ xs) (suc i) f g h = ap (◌∷◌ x) (modify-cong xs i f g h)

pub modify_beyond {ℓ} :
    {A : Type ℓ} (xs : List A) (i : ℕ) (f : A → A) → length xs ≤ i → modify xs i f ≡ xs
modify_beyond [] i f h = refl
modify_beyond (x ∷ xs) zero f h = absurd (omega arith)
modify_beyond (x ∷ xs) (suc i) f h = ap (◌∷◌ x) (modify_beyond xs i f (omega arith))
