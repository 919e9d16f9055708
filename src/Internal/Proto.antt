-- ===== src/Internal/Proto.antt =====
-- The protobuf encoder and the streaming decoder of internal/python.go.
pub mod Varint
pub mod Scalars
pub mod Lengths
pub mod Message
pub mod Scanned
pub mod Chunks
pub mod Typed
pub mod ReadScalar
pub mod Handles
pub mod Pointers
use go_python.Prelude.{
  ℕ, zero, suc, ◌+◌, ◌-◌, ◌*◌, ◌/◌, ◌%◌, ◌^◌, ◌<◌, ◌≡◌, refl, Bytes, Bool, true, false, Option,
  none, some, List, [], ◌∷◌, ◌++◌, length, take, drop, ltb, leb, ◌==◌, if◌then◌else◌, ℤ,
}
use go_python.Value.{Error, errorf}
use go_python.Wire.LittleEndian.{to_uint64}

-- pbAppendVarint: `byte(v)|0x80` is v % 128 + 128. A uint64 has ten groups of seven bits at most, so
-- nine rounds and the last byte are enough.
unfoldable pub append_varint_loop : ℕ → Bytes → ℕ → Bytes
append_varint_loop zero buf v = buf ++ (v % 256) ∷ []
append_varint_loop (suc fuel) buf v =
    let more = append_varint_loop fuel (buf ++ (v % 128 + 128) ∷ []) (v / 128) in
    if ltb v 0x80 then buf ++ (v % 256) ∷ [] else more

unfoldable pub append_varint : Bytes → ℕ → Bytes
append_varint buf v = append_varint_loop 9 buf v

-- pbAppendTag: `field<<3|wireType`, with a wire type below 8.
unfoldable pub append_tag : Bytes → ℕ → ℕ → Bytes
append_tag buf field wire_type = append_varint buf ((field * 8 + wire_type) % 2 ^ 32)

unfoldable pub append_uint64 : Bytes → ℕ → ℕ → Bytes
append_uint64 buf field v = append_varint (append_tag buf field 0) v

-- pbAppendInt32: `uint64(v)` extends the sign.
unfoldable pub append_int32 : Bytes → ℕ → ℤ → Bytes
append_int32 buf field v = append_varint (append_tag buf field 0) (to_uint64 v)

-- pbAppendString and pbAppendBytes
unfoldable pub append_bytes : Bytes → ℕ → Bytes → Bytes
append_bytes buf field s = append_varint (append_tag buf field 2) (length s) ++ s

-- pbReader
pub record PbReader : Type 0 where
  pub bytes : Bytes
  pub pos : ℕ

-- The loop of readVarint over the bytes ahead, with the number of bytes taken. `v |= g << shift` adds:
-- v is below 2 ^ shift, so the two share no bit. A shift past 63 leaves 0 in a uint64.
unfoldable pub read_varint_loop : Bytes → ℕ → ℕ → ℕ → ℕ × ℕ
read_varint_loop [] v shift n = (v, n)
read_varint_loop (b ∷ rest) v shift n =
    let v' = v + (b % 128) * 2 ^ shift % 2 ^ 64 in
    let more = read_varint_loop rest v' (shift + 7) (n + 1) in
    if ltb b 0x80 then (v', n + 1) else more

unfoldable pub read_varint : PbReader → ℕ × PbReader
read_varint r =
    let (v, n) = read_varint_loop (drop r.pos r.bytes) 0 0 0 in (v, record r { pos = r.pos + n })

-- next: the field, the wire type and the reader, `none` at the end.
unfoldable pub next : PbReader → Option (ℕ × ℕ × PbReader)
next r =
    let (tag, r') = read_varint r in
    if ltb r.pos (length r.bytes) then some ((tag / 8) % 2 ^ 32, tag % 8, r') else none

-- readString and readBytes: a length past the end is cut. `none` is the panic of the slice
-- expression: a length of 2 ^ 63 or more is a negative int, and r.pos+n may overflow to one.
unfoldable pub read_bytes : PbReader → Option (Bytes × PbReader)
read_bytes r =
    let (n, r') = read_varint r in
    let m = if ltb (length r'.bytes) (r'.pos + n) then length r'.bytes - r'.pos else n in
    if leb (2 ^ 63) (r'.pos + n)
    then none
    else some (take m (drop r'.pos r'.bytes), record r' { pos = r'.pos + m })

-- skip. The position is an int64, so `r.pos += n` wraps: a length of 2 ^ 63 or more moves it back.
-- `none` is a negative position, which the next read panics at.
unfoldable pub skip : ℕ → PbReader → Option PbReader
skip wire_type r =
    let (n, r') = read_varint r in
    let cut =
      λ (q : ℕ). record r { pos = (if ltb (length r.bytes) q then length r.bytes else q) } in
    if wire_type == 0
    then some (cut r'.pos)
    else if wire_type == 1
    then some (cut (r.pos + 8))
    else if wire_type == 2
    then (if leb (2 ^ 63) ((r'.pos + n) % 2 ^ 64) then none else some (cut ((r'.pos + n) % 2 ^ 64)))
    else if wire_type == 5
    then some (cut (r.pos + 4))
    else some (cut r.pos)

-- The loop `for f, w, ok := r.next(); ok; …` that the functions below share: at the first field where
-- `stop` holds of its number and its wire type, `read` gives the result, and other fields are skipped. The
-- outer `none` is a panic or a loop without end, the inner one that no field stops the loop. The fuel is
-- the length of the data: a round begins at a position of the data, so after that many rounds a loop that
-- goes on has come to one position twice.
unfoldable pub scan :
    {A : Type 0} → ℕ → (ℕ → ℕ → Bool) → (ℕ → PbReader → Option A) → PbReader → Option (Option A)
scan zero stop read r = elim (next r) [ none ↦ some none | some _ ↦ none ]
scan (suc fuel) stop read r = elim (next r) [
  | none ↦ some none
  | some (g, w, r') ↦
      if stop g w
      then elim (read w r') [ none ↦ none | some a ↦ some (some a) ]
      else elim (skip w r') [ none ↦ none | some r'' ↦ scan fuel stop read r'' ]
]

-- The loop over a whole message.
abbrev pub scan_message :
    {A : Type 0} → Bytes → (ℕ → ℕ → Bool) → (ℕ → PbReader → Option A) → Option (Option A)
scan_message resp stop read = scan (length resp) stop read (record { bytes = resp; pos = 0 })

-- The condition `f == n` of a loop.
abbrev pub is_field : ℕ → ℕ → ℕ → Bool
is_field n f w = f == n

-- What a read gives, without the reader afterwards.
unfoldable pub only : {A : Type 0} → (PbReader → Option (A × PbReader)) → ℕ → PbReader → Option A
only read w r = elim (read r) [ none ↦ none | some (a, _) ↦ some a ]

-- A result that is the missing one if no field stopped the loop.
unfoldable pub or_zero : {A : Type 0} → A → Option (Option A) → Option A
or_zero missing none = none
or_zero missing (some none) = some missing
or_zero missing (some (some a)) = some a

-- pbExtractError: the error string is field 15.
unfoldable pub extract_error : Bytes → Option (Option Error)
extract_error resp = elim (scan_message resp (is_field 15) (only read_bytes)) [
  | none ↦ none
  | some none ↦ some none
  | some (some s) ↦ some (some (errorf s))
]

-- readScalarAtField; a missing field is the missing value.
unfoldable pub read_scalar_at_field :
    {A : Type 0} → A → Bytes → ℕ → (PbReader → Option (A × PbReader)) → Option A
read_scalar_at_field missing resp f read =
    or_zero missing (scan_message resp (is_field f) (only read))

-- readScalarAtField with readBytes or readString
abbrev pub read_bytes_at_field : Bytes → ℕ → Option Bytes
read_bytes_at_field resp f = read_scalar_at_field [] resp f read_bytes

-- readScalarAtField with readUint32 or readUint64, before the cut to that width
abbrev pub read_number_at_field : Bytes → ℕ → Option ℕ
read_number_at_field resp f = read_scalar_at_field 0 resp f (λ (r : PbReader). some (read_varint r))
