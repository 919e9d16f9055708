-- ===== src/Wire/Magnitude.antt =====
-- Magnitudes of big integers: big.Int's Bytes and SetBytes (big-endian), and the two loops of wire.go
-- that turn their order round.
use go_python.Prelude.{
  ℕ, zero, suc, ◌+◌, ◌*◌, ◌/◌, ◌%◌, ◌≤◌, ◌≡◌, refl, ◌∙◌, ap, Bytes, [], ◌∷◌, ◌++◌, ◌==◌,
  if◌then◌else◌, arith, Bool-cases, inl, inr,
}
use go_python.Wire.LittleEndian.{from_le}
use mathlib.Core.List.{reverse, reverse-reverse, reverse-append}

-- The magnitude's bytes with no leading zero, lowest first. As many rounds as the number are enough.
min_le : ℕ → ℕ → Bytes
min_le zero n = []
min_le (suc fuel) n = let rest = min_le fuel (n / 256) in if n == 0 then [] else (n % 256) ∷ rest

-- big.Int.Bytes: big-endian, empty for 0.
unfoldable pub big_bytes : ℕ → Bytes
unfolding min_le
big_bytes n = reverse (min_le n n)

set_bytes_from : ℕ → Bytes → ℕ
set_bytes_from acc [] = acc
set_bytes_from acc (b ∷ bs) = set_bytes_from (acc * 256 + b) bs

-- big.Int.SetBytes
unfoldable pub set_bytes : Bytes → ℕ
unfolding set_bytes_from
set_bytes be = set_bytes_from 0 be

-- `for i, j := 0, len(mag)-1; i < j; …` swaps the ends, and `be[len(mag)-1-i] = c` fills from the
-- end: both give the bytes in the other order.
unfoldable pub reversed : Bytes → Bytes
reversed mag = reverse mag

from_le-min_le : (fuel n : ℕ) → n ≤ fuel → from_le (min_le fuel n) ≡ n
unfolding from_le min_le
from_le-min_le zero n h = omega arith
from_le-min_le (suc fuel) n h = elim (Bool-cases (n == 0)) [
  | inl e ↦ rw e (ground arith)
  | inr e ↦ rw e (omega (arith, from_le-min_le fuel (n / 256) (ground arith)))
]

set_bytes_from-append :
    (acc : ℕ) (xs : Bytes) (b : ℕ)
    → set_bytes_from acc (xs ++ b ∷ []) ≡ set_bytes_from acc xs * 256 + b
unfolding set_bytes_from
set_bytes_from-append acc [] b = refl
set_bytes_from-append acc (x ∷ xs) b = set_bytes_from-append (acc * 256 + x) xs b

pub set_bytes-reverse : (xs : Bytes) → set_bytes (reverse xs) ≡ from_le xs
unfolding set_bytes from_le
set_bytes-reverse [] = refl
set_bytes-reverse (x ∷ xs) =
    ap (set_bytes_from 0) (reverse-append (x ∷ []) xs)
    ∙ set_bytes_from-append 0 (reverse xs) x
    ∙ omega (arith, set_bytes-reverse xs)

-- The magnitude survives the two changes of order.
pub set_bytes-big_bytes : (n : ℕ) → set_bytes (reversed (reversed (big_bytes n))) ≡ n
unfolding reversed big_bytes
set_bytes-big_bytes n =
    ap set_bytes (reverse-reverse (reverse (min_le n n)))
    ∙ set_bytes-reverse (min_le n n)
    ∙ from_le-min_le n n (omega arith)
