-- ===== src/Prelude/Result.antt =====
-- Go's (value, error) pairs: a value, or an error that is not nil.
use mathlib.Core.Path.{◌≡◌, refl}
use mathlib.Core.Bool.{Bool, true, false}

pub data Result {ℓ} (E : Type 0) (A : Type ℓ) : Type ℓ where
  ok : A → Result E A
  err : E → Result E A

infixl 5 ◌>>=◌ ◌>>◌
abbrev pub ◌>>=◌ {ℓ κ} :
    {E : Type 0} {A : Type ℓ} {B : Type κ} → Result E A → (A → Result E B) → Result E B
ok a >>= f = f a
err e >>= f = err e

abbrev pub ◌>>◌ {ℓ} : {E : Type 0} {B : Type ℓ} → Result E (Unit {0}) → Result E B → Result E B
m >> n = m >>= λ _. n

-- `if bad { return err }`
abbrev pub reject : {E : Type 0} → Bool → E → Result E (Unit {0})
reject true e = err e
reject false e = ok tt

-- A chain that succeeds has a first step that succeeds.
pub >>=-ok_elim {ℓ κ μ} :
    {E : Type 0} {A : Type ℓ} {B : Type κ} {C : Type μ} (m : Result E A) (f : A → Result E B)
    {b : B}
    → (m >>= f) ≡ ok b
    → ((a : A) → m ≡ ok a → f a ≡ ok b → C)
    → C
>>=-ok_elim (ok a) f h k = k a refl h
>>=-ok_elim (err e) f h k = absurd (cc)

pub reject-ok_elim {κ μ} :
    {E : Type 0} {B : Type κ} {C : Type μ} (bad : Bool) (e : E) (m : Result E B) {b : B}
    → (reject bad e >> m) ≡ ok b
    → (bad ≡ false → m ≡ ok b → C)
    → C
reject-ok_elim true e m h k = absurd (cc)
reject-ok_elim false e m h k = k refl h
