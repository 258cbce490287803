-- ===== src/Prelude/Bits.antt =====
-- `&` on machine words, bit by bit.
use Prim.Native.Nat.{ℕ, zero, suc, ◌+◌, ◌*◌, ◌/◌, ◌%◌, ◌≤◌, min, bit_and, digits, bit_and-bitwise}
use mathlib.Core.Path.{◌≡◌, refl}
use mathlib.Core.Logic.{◌≢◌, ◌⊎◌, inl, inr}
use native.Mathlib.Omega.{arith}

-- The bit of weight 2 ^ k.
abbrev pub bit : ℕ → ℕ → ℕ
bit a zero = a % 2
bit a (suc k) = bit (a / 2) k

abbrev common : ℕ → ℕ → ℕ → ℕ
common = digits (λ _. zero) min

-- The count of digits to go does not matter while it is at least the number.
common_steady : (n k a b : ℕ) → a ≤ n → a ≤ k → common n a b ≡ common k a b
common_steady zero zero a b h j = refl
common_steady zero (suc k) (suc a) b h j = absurd (omega arith)
common_steady (suc n) zero (suc a) b h j = absurd (omega arith)
common_steady (suc n) (suc k) (suc a) b h j =
    omega (arith, common_steady n k (suc a / 2) (b / 2) (omega arith) (omega arith))
common_steady zero (suc k) zero b h j = refl
common_steady (suc n) zero zero b h j = refl
common_steady (suc n) (suc k) zero b h j = refl

zero-and : (b : ℕ) → bit_and 0 b ≡ 0
zero-and b = bit_and-bitwise 0 b

-- One binary digit of a conjunction.
pub bit_and-digit : (a b : ℕ) → bit_and a b ≡ min (a % 2) (b % 2) + bit_and (a / 2) (b / 2) * 2
bit_and-digit zero b = omega (arith, zero-and b, zero-and (b / 2))
bit_and-digit (suc a) b =
    let low = suc a / 2 in
    omega (
      arith,
      bit_and-bitwise (suc a) b,
      bit_and-bitwise low (b / 2),
      common_steady a low low (b / 2) (omega arith) (omega arith),
    )

-- A bit that two words share shows in their conjunction.
pub bit_and-ne-zero : (k a b : ℕ) → bit a k ≡ 1 → bit b k ≡ 1 → bit_and a b ≢ 0
bit_and-ne-zero zero a b p q = omega (arith, bit_and-digit a b)
bit_and-ne-zero (suc k) a b p q =
    let deeper = bit_and-ne-zero k (a / 2) (b / 2) p q in omega (arith, bit_and-digit a b)

-- A conjunction that is not zero shows one in the lowest digit, or in the rest.
lowest_or_rest :
    (a b : ℕ) → bit_and a b ≢ 0 → ((a % 2 ≡ 1) × (b % 2 ≡ 1)) ⊎ (bit_and (a / 2) (b / 2) ≢ 0)
lowest_or_rest a b ne = ground (arith, bit_and-digit a b)

shared_bit_fuel : (n a b : ℕ) → a ≤ n → bit_and a b ≢ 0 → (k : ℕ) × (bit a k ≡ 1) × (bit b k ≡ 1)
shared_bit_fuel n zero b h ne = absurd (ne (zero-and b))
shared_bit_fuel zero (suc a) b h ne = absurd (omega arith)
shared_bit_fuel (suc n) (suc a) b h ne = elim (lowest_or_rest (suc a) b ne) [
  | inl (p, q) ↦ (0, p, q)
  | inr rest ↦
      let (k, p, q) = shared_bit_fuel n (suc a / 2) (b / 2) (omega arith) rest in (suc k, p, q)
]

-- A conjunction that is not zero has a bit that both words set.
pub shared_bit : (a b : ℕ) → bit_and a b ≢ 0 → (k : ℕ) × (bit a k ≡ 1) × (bit b k ≡ 1)
shared_bit a b = shared_bit_fuel a a b (omega arith)

bit_and-zero_fuel : (n a : ℕ) → a ≤ n → bit_and a 0 ≡ 0
bit_and-zero_fuel n zero h = zero-and 0
bit_and-zero_fuel zero (suc a) h = absurd (omega arith)
bit_and-zero_fuel (suc n) (suc a) h =
    omega (arith, bit_and-digit (suc a) 0, bit_and-zero_fuel n (suc a / 2) (omega arith))

pub bit_and-zero : (a : ℕ) → bit_and a 0 ≡ 0
bit_and-zero a = bit_and-zero_fuel a a (omega arith)
