-- ===== src/Internal/Proto/Typed.antt =====
-- The scalar types: each value as the appenders write it, and as the reads of readScalarAtField take it.
use go_python.Prelude.{
  ℕ, ◌+◌, ◌%◌, ◌^◌, ◌<◌, ◌≡◌, refl, ap, ◌∙◌, Bytes, Bool, true, false, not, Option, none, some,
  ◌++◌, length, take, ltb, ◌==◌, arith, ℤ, pos, negsuc,
}
use go_python.Value.Convert.{InInt64}
use go_python.Wire.LittleEndian.{
  le_bytes, from_le-le_bytes, length-le_bytes, to_uint64, to_int32, to_int64, to_int64-to_uint64,
}
use go_python.Wire.Reads.{Ahead, Ahead-step, take-length-append}
use go_python.Internal.Proto.{
  append_int32, PbReader, append_uint64, append_bytes, append_varint, append_varint_loop,
  read_varint, read_bytes, only,
}
use go_python.Internal.Proto.Varint.{varint, read_varint-ahead}
use go_python.Internal.Proto.Scalars.{
  append_int64, append_bool, append_float, append_double, read_bool, read_int32, read_int64,
  read_uint64, read_fixed, read_float, read_double,
}
use go_python.Internal.Proto.Message.{Field, number, chunk, fixed32, fixed64, append_field, IsField}
use go_python.Internal.Proto.Scanned.{Reads, at, read_bytes-chunk}

-- A value of a scalar type; a float is its bit pattern, a text its bytes.
pub data Scalar : Type 0 where
  bool_scalar : Bool → Scalar
  int32_scalar : ℤ → Scalar
  int64_scalar : ℤ → Scalar
  uint64_scalar : ℕ → Scalar
  float_scalar : ℕ → Scalar
  double_scalar : ℕ → Scalar
  bytes_scalar : Bytes → Scalar

pub data ScalarKind : Type 0 where
  a_bool : ScalarKind
  an_int32 : ScalarKind
  an_int64 : ScalarKind
  a_uint64 : ScalarKind
  a_float : ScalarKind
  a_double : ScalarKind
  a_text : ScalarKind

abbrev pub kind_of : Scalar → ScalarKind
kind_of (bool_scalar v) = a_bool
kind_of (int32_scalar v) = an_int32
kind_of (int64_scalar v) = an_int64
kind_of (uint64_scalar v) = a_uint64
kind_of (float_scalar v) = a_float
kind_of (double_scalar v) = a_double
kind_of (bytes_scalar s) = a_text

abbrev pub InInt32 : ℤ → Type 0
InInt32 (pos n) = n < 2 ^ 31
InInt32 (negsuc n) = n < 2 ^ 31

abbrev pub InRange : Scalar → Type 0
InRange (bool_scalar v) = Unit {0}
InRange (int32_scalar v) = InInt32 v
InRange (int64_scalar v) = InInt64 v
InRange (uint64_scalar v) = v < 2 ^ 64
InRange (float_scalar v) = v < 2 ^ 32
InRange (double_scalar v) = v < 2 ^ 64
InRange (bytes_scalar s) = length s < 2 ^ 63

-- The appender of each type.
abbrev pub append_scalar : Bytes → ℕ → Scalar → Bytes
append_scalar buf f (bool_scalar v) = append_bool buf f v
append_scalar buf f (int32_scalar v) = append_int32 buf f v
append_scalar buf f (int64_scalar v) = append_int64 buf f v
append_scalar buf f (uint64_scalar v) = append_uint64 buf f v
append_scalar buf f (float_scalar v) = append_float buf f v
append_scalar buf f (double_scalar v) = append_double buf f v
append_scalar buf f (bytes_scalar s) = append_bytes buf f s

as_scalar :
    {A : Type 0} → (A → Scalar) → (PbReader → A × PbReader) → PbReader → Option (Scalar × PbReader)
as_scalar make read r = let (a, r') = read r in some (make a, r')

-- The read of each type, with its result as a scalar.
unfoldable pub read_as : ScalarKind → PbReader → Option (Scalar × PbReader)
unfolding as_scalar
read_as a_bool = as_scalar bool_scalar read_bool
read_as an_int32 = as_scalar int32_scalar read_int32
read_as an_int64 = as_scalar int64_scalar read_int64
read_as a_uint64 = as_scalar uint64_scalar read_uint64
read_as a_float = as_scalar float_scalar read_float
read_as a_double = as_scalar double_scalar read_double
read_as a_text = λ r. elim (read_bytes r) [ none ↦ none | some (s, r') ↦ some (bytes_scalar s, r') ]

-- The field that an appender writes.
abbrev bit : Bool → ℕ
bit true = 1
bit false = 0

abbrev pub field_of : ℕ × Scalar → Field
field_of (f, bool_scalar v) = number f (bit v)
field_of (f, int32_scalar v) = number f (to_uint64 v)
field_of (f, int64_scalar v) = number f (to_uint64 v)
field_of (f, uint64_scalar v) = number f v
field_of (f, float_scalar v) = fixed32 f v
field_of (f, double_scalar v) = fixed64 f v
field_of (f, bytes_scalar s) = chunk f s

to_uint64-word : (x : ℤ) → to_uint64 x < 2 ^ 64
unfolding to_uint64
to_uint64-word (pos n) = omega arith
to_uint64-word (negsuc n) = omega arith

to_int32-to_uint64 : (x : ℤ) → InInt32 x → to_int32 (to_uint64 x % 2 ^ 32) ≡ x
unfolding to_int32 to_uint64
to_int32-to_uint64 (pos n) h = ground (arith, h)
to_int32-to_uint64 (negsuc n) h = ground (arith, h)

pub field_of-IsField : (f : ℕ) (x : Scalar) → f < 2 ^ 29 → InRange x → IsField (field_of (f, x))
field_of-IsField f (bool_scalar true) lt r = (lt, omega arith)
field_of-IsField f (bool_scalar false) lt r = (lt, omega arith)
field_of-IsField f (int32_scalar v) lt r = (lt, to_uint64-word v)
field_of-IsField f (int64_scalar v) lt r = (lt, to_uint64-word v)
field_of-IsField f (uint64_scalar v) lt r = (lt, r)
field_of-IsField f (float_scalar v) lt r = (lt, r)
field_of-IsField f (double_scalar v) lt r = (lt, r)
field_of-IsField f (bytes_scalar s) lt r = (lt, r)

pub append_scalar-field :
    (buf : Bytes) (f : ℕ) (x : Scalar) → append_scalar buf f x ≡ append_field buf (field_of (f, x))
unfolding append_bool append_int32 append_int64 append_uint64 append_varint append_varint_loop
append_scalar-field buf f (bool_scalar true) = refl
append_scalar-field buf f (bool_scalar false) = refl
append_scalar-field buf f (int32_scalar v) = refl
append_scalar-field buf f (int64_scalar v) = refl
append_scalar-field buf f (uint64_scalar v) = refl
append_scalar-field buf f (float_scalar v) = refl
append_scalar-field buf f (double_scalar v) = refl
append_scalar-field buf f (bytes_scalar s) = refl

read-number :
    {A : Type 0} (make : ℕ → A) (v : ℕ) (b : Bytes) (k : ℕ) (rest : Bytes)
    → v < 2 ^ 64
    → Ahead b k (varint v ++ rest)
    → make (read_varint (at b k)).0 ≡ make v
read-number make v b k rest small h =
    ap (λ (p : ℕ × PbReader). make p.0) (read_varint-ahead b k v rest small h.ahead)

read-fixed :
    (w v : ℕ) (b : Bytes) (k : ℕ) (rest : Bytes)
    → v < 256 ^ w
    → Ahead b k (le_bytes w v ++ rest)
    → (read_fixed w (at b k)).0 ≡ v
unfolding read_fixed
read-fixed w v b k rest small h =
    let after = Ahead-step (le_bytes w v) rest h in
    let inside : ltb (length b) (k + w) ≡ false =
      ground (arith, after.within, length-le_bytes w v) in
    let window : take w (le_bytes w v ++ rest) ≡ le_bytes w v =
      rw (length-le_bytes w v) at (take-length-append (le_bytes w v) rest) in
    rw (inside, h.ahead, window) (from_le-le_bytes w v small)

pub read_as-Reads :
    (f : ℕ) (x : Scalar) → InRange x → Reads (only (read_as (kind_of x)) 0) x (field_of (f, x))
unfolding only read_as as_scalar read_bool read_int32 read_int64 read_uint64 read_float read_double
read_as-Reads f (bool_scalar true) r b k rest short h =
    read-number (λ (n : ℕ). some (bool_scalar (not (n == 0)))) 1 b k rest (omega arith) h
read_as-Reads f (bool_scalar false) r b k rest short h =
    read-number (λ (n : ℕ). some (bool_scalar (not (n == 0)))) 0 b k rest (omega arith) h
read_as-Reads f (int32_scalar v) r b k rest short h =
    read-number (λ (n : ℕ). some (int32_scalar (to_int32 (n % 2 ^ 32)))) (to_uint64 v) b k rest
      (to_uint64-word v) h
    ∙ ap (λ (z : ℤ). some (int32_scalar z)) (to_int32-to_uint64 v r)
read_as-Reads f (int64_scalar v) r b k rest short h =
    read-number (λ (n : ℕ). some (int64_scalar (to_int64 n))) (to_uint64 v) b k rest
      (to_uint64-word v) h
    ∙ ap (λ (z : ℤ). some (int64_scalar z)) (to_int64-to_uint64 v r).0
read_as-Reads f (uint64_scalar v) r b k rest short h =
    read-number (λ (n : ℕ). some (uint64_scalar n)) v b k rest r h
read_as-Reads f (float_scalar v) r b k rest short h =
    ap (λ (n : ℕ). some (float_scalar n)) (read-fixed 4 v b k rest (omega arith) h)
read_as-Reads f (double_scalar v) r b k rest short h =
    ap (λ (n : ℕ). some (double_scalar n)) (read-fixed 8 v b k rest (omega arith) h)
read_as-Reads f (bytes_scalar s) r b k rest short h =
    rw (only, read_bytes-chunk b short k s rest h) refl

-- The scalar of a type in a field.
abbrev pub value_as : ScalarKind → Field → Scalar
value_as a_bool (number f v) = bool_scalar (not (v == 0))
value_as an_int32 (number f v) = int32_scalar (to_int32 (v % 2 ^ 32))
value_as an_int64 (number f v) = int64_scalar (to_int64 v)
value_as a_uint64 (number f v) = uint64_scalar v
value_as a_float (fixed32 f v) = float_scalar v
value_as a_double (fixed64 f v) = double_scalar v
value_as a_text (chunk f s) = bytes_scalar s
value_as k x = bool_scalar false

pub value_as-field_of :
    (f : ℕ) (x : Scalar) → InRange x → value_as (kind_of x) (field_of (f, x)) ≡ x
value_as-field_of f (bool_scalar true) r = refl
value_as-field_of f (bool_scalar false) r = refl
value_as-field_of f (int32_scalar v) r = ap (λ (z : ℤ). int32_scalar z) (to_int32-to_uint64 v r)
value_as-field_of f (int64_scalar v) r = ap (λ (z : ℤ). int64_scalar z) (to_int64-to_uint64 v r).0
value_as-field_of f (uint64_scalar v) r = refl
value_as-field_of f (float_scalar v) r = refl
value_as-field_of f (double_scalar v) r = refl
value_as-field_of f (bytes_scalar s) r = refl
