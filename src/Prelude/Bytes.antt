-- ===== src/Prelude/Bytes.antt =====
-- Go's byte arrays, byte slices and strings: lists of bytes.
use Prim.Native.Nat.{ℕ, zero, suc, ◌+◌, ◌*◌, ◌/◌, ◌%◌, ◌^◌, ◌<◌}
use Prim.Native.Char.{code}
use Prim.Native.String.{String}
use mathlib.Core.Path.{◌≡◌, refl, ap}
use mathlib.Core.Logic.{◌↔◌}
use mathlib.Core.Bool.{Bool, true, false, ◌&&◌}
use mathlib.Core.List.{List, [], ◌∷◌}
use native.Mathlib.Omega.{arith}
use veraxis_memory_admissibi.Prelude.Tests.{ltb, ◌==◌, if◌then◌else◌}
use veraxis_memory_admissibi.Prelude.Lists.{length, replicate, All}

abbrev pub Bytes : Type 0
Bytes = List ℕ

-- A Go string is its sequence of bytes.
abbrev pub GoString : Type 0
GoString = List ℕ

abbrev pub IsByte : ℕ → Type 0
IsByte b = b < 256

-- The bytes of an ASCII literal.
unfoldable pub text : String → GoString
text String.[] = []
text (String.◌∷◌ c s) = code c ∷ text s

-- `a == b` on arrays and strings.
unfoldable pub bytes_eq : Bytes → Bytes → Bool
bytes_eq [] [] = true
bytes_eq [] (b ∷ bs) = false
bytes_eq (a ∷ as_) [] = false
bytes_eq (a ∷ as_) (b ∷ bs) = a == b && bytes_eq as_ bs

pub bytes_eq_iff : (a b : Bytes) → (bytes_eq a b ≡ true) ↔ (a ≡ b)
unfolding bytes_eq
bytes_eq_iff [] [] = (λ _. refl, λ _. refl)
bytes_eq_iff [] (b ∷ bs) = (λ e. cc, λ e. cc)
bytes_eq_iff (a ∷ as_) [] = (λ e. cc, λ e. cc)
bytes_eq_iff (a ∷ as_) (b ∷ bs) =
    (λ e. ground (arith, (bytes_eq_iff as_ bs).0), λ e. ground (arith, (bytes_eq_iff as_ bs).1))

pub bytes_eq_refl : (a : Bytes) → bytes_eq a a ≡ true
bytes_eq_refl a = (bytes_eq_iff a a).1 refl

-- `bytes.Compare(a, b) < 0`, which is `a < b` on strings too.
unfoldable pub bytes_lt : Bytes → Bytes → Bool
bytes_lt [] [] = false
bytes_lt [] (b ∷ bs) = true
bytes_lt (a ∷ as_) [] = false
bytes_lt (a ∷ as_) (b ∷ bs) = if a == b then bytes_lt as_ bs else ltb a b

pub bytes_lt_irrefl : (a : Bytes) → bytes_lt a a ≡ false
unfolding bytes_lt
bytes_lt_irrefl [] = refl
bytes_lt_irrefl (a ∷ as_) = ground (arith, bytes_lt_irrefl as_)

pub bytes_lt_trans :
    (a b c : Bytes) → bytes_lt a b ≡ true → bytes_lt b c ≡ true → bytes_lt a c ≡ true
unfolding bytes_lt
bytes_lt_trans [] [] c h k = cc
bytes_lt_trans [] (b ∷ bs) [] h k = cc
bytes_lt_trans [] (b ∷ bs) (c ∷ cs) h k = refl
bytes_lt_trans (a ∷ as_) [] c h k = cc
bytes_lt_trans (a ∷ as_) (b ∷ bs) [] h k = cc
bytes_lt_trans (a ∷ as_) (b ∷ bs) (c ∷ cs) h k = ground (arith, bytes_lt_trans as_ bs cs)

-- Two byte strings of which neither is below the other are one.
pub bytes_lt_total : (a b : Bytes) → bytes_lt a b ≡ false → bytes_lt b a ≡ false → a ≡ b
unfolding bytes_lt
bytes_lt_total [] [] h k = refl
bytes_lt_total [] (b ∷ bs) h k = cc
bytes_lt_total (a ∷ as_) [] h k = cc
bytes_lt_total (a ∷ as_) (b ∷ bs) h k = ground (arith, bytes_lt_total as_ bs)

pub bytes_lt_negative :
    (a b c : Bytes) → bytes_lt a b ≡ false → bytes_lt b c ≡ false → bytes_lt a c ≡ false
unfolding bytes_lt
bytes_lt_negative [] [] c h k = k
bytes_lt_negative [] (b ∷ bs) c h k = cc
bytes_lt_negative (a ∷ as_) [] [] h k = refl
bytes_lt_negative (a ∷ as_) [] (c ∷ cs) h k = cc
bytes_lt_negative (a ∷ as_) (b ∷ bs) [] h k = refl
bytes_lt_negative (a ∷ as_) (b ∷ bs) (c ∷ cs) h k = ground (arith, bytes_lt_negative as_ bs cs)

-- A zero array, `[n]byte{}`.
unfoldable pub zeros : ℕ → Bytes
zeros n = replicate n 0

-- `binary.BigEndian.PutUint16`, `PutUint32` and `PutUint64` write the low bytes, highest first.
unfoldable pub big_endian : ℕ → ℕ → Bytes
big_endian zero n = []
big_endian (suc w) n = n / 256 ^ w % 256 ∷ big_endian w n

-- What the matching reader makes of the bytes.
unfoldable pub from_big_endian : ℕ → Bytes → ℕ
from_big_endian acc [] = acc
from_big_endian acc (b ∷ bs) = from_big_endian (acc * 256 + b) bs

pub length-big_endian : (w n : ℕ) → length (big_endian w n) ≡ w
unfolding big_endian
length-big_endian zero n = refl
length-big_endian (suc w) n = ap suc (length-big_endian w n)

-- A uint16 and a uint32 are read back as they were written.
pub from_big_endian-big_endian_16 : (n : ℕ) → n < 2 ^ 16 → from_big_endian 0 (big_endian 2 n) ≡ n
unfolding big_endian from_big_endian
from_big_endian-big_endian_16 n h = omega arith

pub from_big_endian-big_endian_32 : (n : ℕ) → n < 2 ^ 32 → from_big_endian 0 (big_endian 4 n) ≡ n
unfolding big_endian from_big_endian
from_big_endian-big_endian_32 n h = omega arith

pub from_big_endian-big_endian_64 : (n : ℕ) → n < 2 ^ 64 → from_big_endian 0 (big_endian 8 n) ≡ n
unfolding big_endian from_big_endian
from_big_endian-big_endian_64 n h = omega arith

-- Four bytes and two bytes are what their number is written as.
pub big_endian-from_big_endian_32 :
    (bs : Bytes) → length bs ≡ 4 → All IsByte bs → big_endian 4 (from_big_endian 0 bs) ≡ bs
unfolding big_endian from_big_endian
big_endian-from_big_endian_32 (a ∷ b ∷ c ∷ d ∷ []) h (p, (q, (r, (s, _)))) =
    let n = ((a * 256 + b) * 256 + c) * 256 + d in
    let e : (0 * 256 + a) * 256 ≡ a * 256 = omega arith in ground arith
big_endian-from_big_endian_32 bs h _ = absurd (omega arith)

pub big_endian-from_big_endian_16 :
    (bs : Bytes) → length bs ≡ 2 → All IsByte bs → big_endian 2 (from_big_endian 0 bs) ≡ bs
unfolding big_endian from_big_endian
big_endian-from_big_endian_16 (a ∷ b ∷ []) h (p, (q, _)) = ground arith
big_endian-from_big_endian_16 bs h _ = absurd (omega arith)

pub from_big_endian-lt_32 :
    (bs : Bytes) → length bs ≡ 4 → All IsByte bs → from_big_endian 0 bs < 2 ^ 32
unfolding from_big_endian
from_big_endian-lt_32 (a ∷ b ∷ c ∷ d ∷ []) h (p, (q, (r, (s, _)))) = omega arith
from_big_endian-lt_32 bs h _ = absurd (omega arith)
