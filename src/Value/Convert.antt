-- ===== src/Value/Convert.antt =====
-- Go values to Python values: ValueOf, intFromUint64 and intFromBig of value.go. The integer types
-- are given by the number that a value of the type stands for.
use go_python.Prelude.{
  ℕ, ◌-◌, ◌^◌, ◌<◌, ◌≤◌, ◌≡◌, refl, ℤ, pos, negsuc, Bytes, Bool, Option, none, some, ltb,
  Bool-cases, inl, inr, leb, if◌then◌else◌, arith,
}
use go_python.Value.{
  Value, none_value, bool_value, int_value, float_value, complex_value, str_value, bytes_value,
  IntValue, big_int,
}

-- big.Int.IsInt64
unfoldable pub is_int64 : ℤ → Bool
is_int64 (pos n) = ltb n (2 ^ 63)
is_int64 (negsuc n) = ltb n (2 ^ 63)

unfoldable pub int_from_big : ℤ → IntValue
unfolding is_int64
int_from_big b =
    if is_int64 b then record { i = b; big = none } else record { i = pos 0; big = some b }

unfoldable pub int_from_uint64 : ℕ → IntValue
int_from_uint64 u =
    if leb u (2 ^ 63 - 1)
    then record { i = pos u; big = none }
    else record { i = pos 0; big = some (pos u) }

-- The type set BasicType. The conversions of a float32 and a complex64 to 64 bits are the
-- hardware's, so those two constructors carry the bits of the converted value. `big_ptr` is a
-- *big.Int, with `none` for nil.
pub data Basic : Type 0 where
  bool : Bool → Basic
  int int8 int16 int32 int64 : ℤ → Basic
  uint uint8 uint16 uint32 uint64 : ℕ → Basic
  float32 float64 : ℕ → Basic
  complex64 complex128 : ℕ → ℕ → Basic
  string byte_slice : Bytes → Basic
  big_ptr : Option ℤ → Basic

abbrev small_int : ℤ → Value
small_int x = int_value (record { i = x; big = none })

unfoldable pub value_of : Basic → Value
unfolding int_from_big int_from_uint64
value_of (bool x) = bool_value x
value_of (int x) = small_int x
value_of (int8 x) = small_int x
value_of (int16 x) = small_int x
value_of (int32 x) = small_int x
value_of (int64 x) = small_int x
value_of (uint x) = int_value (int_from_uint64 x)
value_of (uint8 x) = small_int (pos x)
value_of (uint16 x) = small_int (pos x)
value_of (uint32 x) = small_int (pos x)
value_of (uint64 x) = int_value (int_from_uint64 x)
value_of (float32 x) = float_value x
value_of (float64 x) = float_value x
value_of (complex64 re im) = complex_value re im
value_of (complex128 re im) = complex_value re im
value_of (string x) = str_value x
value_of (byte_slice x) = bytes_value x
value_of (big_ptr none) = none_value
value_of (big_ptr (some x)) = int_value (int_from_big x)

-- `InInt64 x`: x is representable as an int64.
abbrev pub InInt64 : ℤ → Type 0
InInt64 (pos n) = n < 2 ^ 63
InInt64 (negsuc n) = n < 2 ^ 63

-- `OutOfInt64 x`: x is not representable as an int64.
abbrev pub OutOfInt64 : ℤ → Type 0
OutOfInt64 (pos n) = 2 ^ 63 ≤ n
OutOfInt64 (negsuc n) = 2 ^ 63 ≤ n

abbrev pub IsNormalParts : ℤ → Option ℤ → Type 0
IsNormalParts i none = InInt64 i
IsNormalParts i (some b) = (i ≡ pos 0) × OutOfInt64 b

-- The representation of ints: the big part is there only where the number does not fit an int64,
-- and the small part is then 0.
abbrev pub IsNormal : IntValue → Type 0
IsNormal v = IsNormalParts v.i v.big

-- An int built from a big.Int is in the normal representation (the big part is there exactly when
-- the number does not fit an int64) and stands for the number it was built from.
pub int_from_big-IsNormal : (b : ℤ) → IsNormal (int_from_big b) × (big_int (int_from_big b) ≡ b)
unfolding int_from_big big_int is_int64
int_from_big-IsNormal (pos n) = elim (Bool-cases (ltb n (2 ^ 63))) [
  | inl e ↦ rw e (ground arith, refl)
  | inr e ↦ rw e ((refl, ground arith), refl)
]
int_from_big-IsNormal (negsuc n) = elim (Bool-cases (ltb n (2 ^ 63))) [
  | inl e ↦ rw e (ground arith, refl)
  | inr e ↦ rw e ((refl, ground arith), refl)
]

-- An int in the normal representation is rebuilt from its number.
pub int_from_big-big_int : (v : IntValue) → IsNormal v → int_from_big (big_int v) ≡ v
unfolding int_from_big big_int is_int64
int_from_big-big_int v h = ground arith

-- The unsigned constructor is the general one at numbers that are not negative.
pub int_from_uint64-eq : (u : ℕ) → int_from_uint64 u ≡ int_from_big (pos u)
unfolding int_from_uint64 int_from_big
int_from_uint64-eq u = ground arith
