-- ===== src/Prelude/Numbers.antt =====
-- Signed integers over the native numbers, Go's byte strings, and decimal printing.
use Prim.Native.Nat.{ℕ, zero, suc, ◌+◌, ◌/◌, ◌%◌, ◌-◌, ◌^◌, compare, Ordering}
use Prim.Native.Char.{code}
use Prim.Native.String.{String}
use mathlib.Core.Path.{◌≡◌, refl}
use mathlib.Core.List.{List, [], ◌∷◌}

-- `negsuc n` is -(n + 1).
pub data ℤ : Type 0 where
  pos : ℕ → ℤ
  negsuc : ℕ → ℤ

-- The int32 of a bit pattern.
unfoldable pub int32 : ℕ → ℤ
int32 n = elim (compare n (2 ^ 31)) [ Ordering.lt ↦ pos n | _ ↦ negsuc (2 ^ 32 - 1 - n) ]

-- A Go string or []byte: its bytes.
abbrev pub Bytes : Type 0
Bytes = List ℕ

-- The bytes of an ASCII literal of the source.
unfoldable pub text : String → Bytes
text String.[] = []
text (String.◌∷◌ c s) = code c ∷ text s

decimal_digits : ℕ → ℕ → Bytes → Bytes
decimal_digits zero n acc = acc
decimal_digits (suc fuel) n acc = elim (compare n 10) [
  | Ordering.lt ↦ (48 + n) ∷ acc
  | _ ↦ decimal_digits fuel (n / 10) ((48 + n % 10) ∷ acc)
]

-- strconv.Itoa of a number that is not negative: as many rounds as `n + 1` are enough.
unfoldable pub itoa : ℕ → Bytes
unfolding decimal_digits
itoa n = decimal_digits (suc n) n []

-- strconv.Itoa
unfoldable pub itoa_ℤ : ℤ → Bytes
unfolding itoa
itoa_ℤ (pos n) = itoa n
itoa_ℤ (negsuc n) = 45 ∷ itoa (suc n)

itoa_example : itoa 1205 ≡ text "1205"
unfolding itoa text
itoa_example = refl
