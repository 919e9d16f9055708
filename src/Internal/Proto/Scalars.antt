-- ===== src/Internal/Proto/Scalars.antt =====
-- The appenders and the reads of internal/python.go for the scalar types of protobuf.
use go_python.Prelude.{
  ℕ, ◌+◌, ◌%◌, ◌^◌, Bytes, Bool, not, Option, none, some, [], ◌∷◌, ◌++◌, length, take, drop, ltb,
  ◌==◌, if◌then◌else◌, ℤ,
}
use go_python.Wire.LittleEndian.{le_bytes, from_le, to_uint64, to_int32, to_int64}
use go_python.Internal.Proto.{PbReader, read_varint, read_bytes, append_tag, append_varint}

-- pbAppendInt64
unfoldable pub append_int64 : Bytes → ℕ → ℤ → Bytes
append_int64 buf field v = append_varint (append_tag buf field 0) (to_uint64 v)

-- pbAppendBool
unfoldable pub append_bool : Bytes → ℕ → Bool → Bytes
append_bool buf field v =
    let tagged = append_tag buf field 0 in if v then tagged ++ 1 ∷ [] else tagged ++ 0 ∷ []

-- pbAppendFloat and pbAppendDouble of the bit pattern of the float.
unfoldable pub append_float : Bytes → ℕ → ℕ → Bytes
append_float buf field v = append_tag buf field 5 ++ le_bytes 4 v

unfoldable pub append_double : Bytes → ℕ → ℕ → Bytes
append_double buf field v = append_tag buf field 1 ++ le_bytes 8 v

-- readBool
unfoldable pub read_bool : PbReader → Bool × PbReader
read_bool r = let (n, r') = read_varint r in (not (n == 0), r')

-- readInt32: the low 32 bits as two's complement.
unfoldable pub read_int32 : PbReader → ℤ × PbReader
read_int32 r = let (n, r') = read_varint r in (to_int32 (n % 2 ^ 32), r')

-- readInt64
unfoldable pub read_int64 : PbReader → ℤ × PbReader
read_int64 r = let (n, r') = read_varint r in (to_int64 n, r')

-- readUint32
unfoldable pub read_uint32 : PbReader → ℕ × PbReader
read_uint32 r = let (n, r') = read_varint r in (n % 2 ^ 32, r')

-- readUint64
unfoldable pub read_uint64 : PbReader → ℕ × PbReader
read_uint64 r = read_varint r

-- The shape of readFloat and readDouble: 0 and the end of the data if the bytes are not there.
unfoldable pub read_fixed : ℕ → PbReader → ℕ × PbReader
read_fixed w r =
    if ltb (length r.bytes) (r.pos + w)
    then (0, record r { pos = length r.bytes })
    else (from_le (take w (drop r.pos r.bytes)), record r { pos = r.pos + w })

-- readFloat
unfoldable pub read_float : PbReader → ℕ × PbReader
read_float r = read_fixed 4 r

-- readDouble
unfoldable pub read_double : PbReader → ℕ × PbReader
read_double r = read_fixed 8 r

-- readSubmessage: a reader of the bytes that readBytes would copy.
unfoldable pub read_submessage : PbReader → Option (PbReader × PbReader)
read_submessage r = elim (read_bytes r) [
  | none ↦ none
  | some (s, r') ↦ some (record { bytes = s; pos = 0 }, r')
]

-- A read that never panics.
abbrev pub total : {A : Type 0} → (PbReader → A × PbReader) → PbReader → Option (A × PbReader)
total read r = some (read r)
