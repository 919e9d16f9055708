-- ===== src/Internal/Proto/Message.antt =====
-- Messages of several fields: what the appenders write, and what a loop over the fields finds in it.
use go_python.Prelude.{
  ℕ, ◌+◌, ◌*◌, ◌%◌, ◌^◌, ◌<◌, ◌≡◌, sym, ap, ◌∙◌, Bytes, List, [], ◌∷◌, ◌++◌, append_assoc,
  append-nil, length, arith,
}
use go_python.Internal.Proto.{append_tag, append_uint64, append_bytes}
use go_python.Wire.LittleEndian.{le_bytes}
use go_python.Internal.Proto.Scalars.{append_float, append_double}
use go_python.Internal.Proto.Varint.{varint, append_varint-eq}

-- The fields of a message by wire type: a number, a chunk of bytes, four bytes and eight bytes.
pub data Field : Type 0 where
  number : ℕ → ℕ → Field
  chunk : ℕ → Bytes → Field
  fixed32 : ℕ → ℕ → Field
  fixed64 : ℕ → ℕ → Field

abbrev pub append_field : Bytes → Field → Bytes
append_field buf (number f v) = append_uint64 buf f v
append_field buf (chunk f s) = append_bytes buf f s
append_field buf (fixed32 f v) = append_float buf f v
append_field buf (fixed64 f v) = append_double buf f v

abbrev pub append_fields : Bytes → List Field → Bytes
append_fields buf [] = buf
append_fields buf (x ∷ xs) = append_fields (append_field buf x) xs

abbrev pub field_number : Field → ℕ
field_number (number f v) = f
field_number (chunk f s) = f
field_number (fixed32 f v) = f
field_number (fixed64 f v) = f

abbrev pub wire_type : Field → ℕ
wire_type (number f v) = 0
wire_type (chunk f s) = 2
wire_type (fixed32 f v) = 5
wire_type (fixed64 f v) = 1

-- Numbers of 64 bits, chunks of fewer than 2 ^ 63 bytes, words of their width.
abbrev pub IsField : Field → Type 0
IsField (number f v) = (f < 2 ^ 29) × (v < 2 ^ 64)
IsField (chunk f s) = (f < 2 ^ 29) × (length s < 2 ^ 63)
IsField (fixed32 f v) = (f < 2 ^ 29) × (v < 2 ^ 32)
IsField (fixed64 f v) = (f < 2 ^ 29) × (v < 2 ^ 64)

abbrev pub AllFields : List Field → Type 0
AllFields [] = Unit {0}
AllFields (x ∷ xs) = IsField x × AllFields xs

abbrev pub tag : Field → Bytes
tag x = varint (field_number x * 8 + wire_type x)

abbrev pub body : Field → Bytes
body (number f v) = varint v
body (chunk f s) = varint (length s) ++ s
body (fixed32 f v) = le_bytes 4 v
body (fixed64 f v) = le_bytes 8 v

abbrev pub flat : List Field → Bytes
flat [] = []
flat (x ∷ xs) = tag x ++ (body x ++ flat xs)

pub tag_range : (x : Field) → IsField x → (field_number x < 2 ^ 29) × (wire_type x < 8)
tag_range (number f v) h = (h.0, omega arith)
tag_range (chunk f s) h = (h.0, omega arith)
tag_range (fixed32 f v) h = (h.0, omega arith)
tag_range (fixed64 f v) h = (h.0, omega arith)

append_tag-eq :
    (buf : Bytes) (f w : ℕ) → f < 2 ^ 29 → w < 8 → append_tag buf f w ≡ buf ++ varint (f * 8 + w)
unfolding append_tag
append_tag-eq buf f w lt short =
    let whole : (f * 8 + w) % 2 ^ 32 ≡ f * 8 + w = omega arith in
    rw whole (append_varint-eq buf (f * 8 + w))

append_field-eq :
    (buf : Bytes) (x : Field) → IsField x → append_field buf x ≡ buf ++ (tag x ++ body x)
unfolding append_uint64 append_bytes append_float append_double
append_field-eq buf (number f v) (lt, small) =
    rw (append_tag-eq buf f 0 lt (omega arith), append_varint-eq (buf ++ varint (f * 8 + 0)) v)
      (append_assoc buf (varint (f * 8 + 0)) (varint v))
append_field-eq buf (chunk f s) (lt, small) =
    rw
      (
        append_tag-eq buf f 2 lt (omega arith),
        append_varint-eq (buf ++ varint (f * 8 + 2)) (length s),
        append_assoc (buf ++ varint (f * 8 + 2)) (varint (length s)) s,
      )
      (append_assoc buf (varint (f * 8 + 2)) (varint (length s) ++ s))
append_field-eq buf (fixed32 f v) (lt, small) =
    rw (append_tag-eq buf f 5 lt (omega arith))
      (append_assoc buf (varint (f * 8 + 5)) (le_bytes 4 v))
append_field-eq buf (fixed64 f v) (lt, small) =
    rw (append_tag-eq buf f 1 lt (omega arith))
      (append_assoc buf (varint (f * 8 + 1)) (le_bytes 8 v))

pub append_fields-eq :
    (buf : Bytes) (xs : List Field) → AllFields xs → append_fields buf xs ≡ buf ++ flat xs
append_fields-eq buf [] all = sym (append-nil buf)
append_fields-eq buf (x ∷ xs) all =
    append_fields-eq (append_field buf x) xs all.1
    ∙ (ap (λ (b : Bytes). b ++ flat xs) (append_field-eq buf x all.0)
        ∙ (append_assoc buf (tag x ++ body x) (flat xs)
            ∙ ap (λ (b : Bytes). buf ++ b) (append_assoc (tag x) (body x) (flat xs))))
