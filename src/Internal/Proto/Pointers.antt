-- ===== src/Internal/Proto/Pointers.antt =====
-- What the handle appenders write, and what readPtrAtField finds in a message with a handle.
use go_python.Prelude.{
  ℕ, zero, suc, ◌+◌, ◌/◌, ◌^◌, ◌<◌, ◌≡◌, ◌≢◌, refl, sym, ap, ◌∙◌, Bytes, false, Option, some, List,
  [], ◌∷◌, ◌++◌, append_assoc, length, ltb, ◌==◌, ==_iff, Bool-cases, inl, inr, arith,
}
use go_python.Internal.Proto.{
  PbReader, append_uint64, append_bytes, append_tag, append_varint, append_varint_loop, or_zero,
  scan_message, is_field,
}
use go_python.Internal.Proto.Varint.{
  groups, length-groups, varint, read_varint-ahead, append_varint-eq,
}
use go_python.Internal.Proto.Scalars.{read_submessage}
use go_python.Internal.Proto.Message.{
  Field, number, chunk, append_field, append_fields, field_number, wire_type, IsField, AllFields,
}
use go_python.Internal.Proto.Scanned.{
  Reads, FirstRead, first, read_bytes-chunk, scan_message-append_fields,
}
use go_python.Internal.Proto.Handles.{
  varint_len, varint_len_loop, append_submessage, append_handle, number_at, is_pointer,
  submessage_ptr, handle_field, read_handle_ptr, ptr_field, read_ptr_at_field,
}

varint_len_loop-groups : (fuel n v : ℕ) → varint_len_loop fuel n v + 1 ≡ n + length (groups fuel v)
unfolding varint_len_loop groups
varint_len_loop-groups zero n v = omega arith
varint_len_loop-groups (suc fuel) n v = elim (Bool-cases (ltb v 0x80)) [
  | inl e ↦ rw e (omega arith)
  | inr e ↦ rw e (omega (arith, varint_len_loop-groups fuel (n + 1) (v / 128)))
]

pub varint_len-varint : (v : ℕ) → varint_len v ≡ length (varint v)
unfolding varint_len
varint_len-varint v = omega (arith, varint_len_loop-groups 9 1 v)

pointer-eq : (ptr : ℕ) → append_uint64 [] 1 ptr ≡ 8 ∷ varint ptr
unfolding append_uint64 append_tag append_varint append_varint_loop
pointer-eq ptr = append_varint-eq (8 ∷ []) ptr

append_handle-eq :
    (buf : Bytes) (f ptr : ℕ)
    → append_handle buf f ptr ≡ append_bytes buf f (append_uint64 [] 1 ptr)
unfolding append_handle append_bytes
append_handle-eq buf f ptr =
    let tagged = append_tag buf f 2 in
    let size : 1 + varint_len ptr ≡ length (8 ∷ varint ptr) =
      omega (arith, varint_len-varint ptr) in
    rw (pointer-eq ptr, sym size)
      (append_varint-eq (append_varint tagged (1 + varint_len ptr) ++ 8 ∷ []) ptr
        ∙ append_assoc (append_varint tagged (1 + varint_len ptr)) (8 ∷ []) (varint ptr))

-- The optimised appender writes what the submessage would: pbVarintLen is the number of bytes that
-- pbAppendVarint writes of every number, and pbAppendHandle writes the field that pbAppendSubmessage, and
-- pbAppendBytes, write of a message with the pointer alone, without making that message.
pub append_handle-append_submessage :
    (buf : Bytes) (f ptr : ℕ)
    → (varint_len ptr ≡ length (append_varint [] ptr))
      × (append_handle buf f ptr ≡ append_submessage buf f (append_uint64 [] 1 ptr))
      × (append_handle buf f ptr ≡ append_bytes buf f (append_uint64 [] 1 ptr))
unfolding append_submessage append_bytes
append_handle-append_submessage buf f ptr = (
  varint_len-varint ptr ∙ ap (λ (b : Bytes). length b) (sym (append_varint-eq [] ptr)),
  append_handle-eq buf f ptr,
  append_handle-eq buf f ptr,
)

-- A message of the pointer alone, in a submessage and as the whole.
number-Reads : (ptr : ℕ) → ptr < 2 ^ 64 → Reads (number_at 0) ptr (number 1 ptr)
number-Reads ptr small b k rest short h = rw (read_varint-ahead b k ptr rest small h.ahead) refl

value : Field → ℕ
value (number f v) = v
value x = 0

pointer-AllFields : (ptr : ℕ) → ptr < 2 ^ 64 → AllFields (number 1 ptr ∷ [])
pointer-AllFields ptr small = ((omega arith, small), tt)

length-pointer : (ptr : ℕ) → length (append_uint64 [] 1 ptr) < 2 ^ 62
length-pointer ptr = rw (pointer-eq ptr) (omega (arith, length-groups 9 ptr))

submessage_ptr-pointer :
    (ptr : ℕ) → ptr < 2 ^ 64 → submessage_ptr (append_uint64 [] 1 ptr) ≡ some ptr
unfolding submessage_ptr or_zero value
submessage_ptr-pointer ptr small =
    rw
      (
        submessage_ptr,
        scan_message-append_fields is_pointer number_at value (number 1 ptr ∷ [])
            (pointer-AllFields ptr small) ((λ e. number-Reads ptr small), (λ e. tt))
            (omega (arith, length-pointer ptr)),
      )
      refl

read_handle_ptr-pointer :
    (ptr : ℕ) → ptr < 2 ^ 64 → read_handle_ptr (append_uint64 [] 1 ptr) ≡ some ptr
unfolding read_handle_ptr handle_field or_zero value
read_handle_ptr-pointer ptr small =
    rw
      (
        read_handle_ptr,
        scan_message-append_fields (is_field 1) handle_field value (number 1 ptr ∷ [])
            (pointer-AllFields ptr small) ((λ e. number-Reads ptr small), (λ e. tt))
            (omega (arith, length-pointer ptr)),
      )
      refl

-- The submessage as a field.
handle_field-Reads :
    (f ptr : ℕ) → ptr < 2 ^ 64 → Reads (handle_field 2) ptr (chunk f (append_uint64 [] 1 ptr))
unfolding handle_field read_submessage
handle_field-Reads f ptr small b k rest short h =
    rw (read_bytes-chunk b short k (append_uint64 [] 1 ptr) rest h)
      (submessage_ptr-pointer ptr small)

ptr_field-Reads :
    (f ptr : ℕ) → ptr < 2 ^ 64 → Reads (ptr_field 2) ptr (chunk f (append_uint64 [] 1 ptr))
unfolding ptr_field read_submessage
ptr_field-Reads f ptr small b k rest short h =
    rw (read_bytes-chunk b short k (append_uint64 [] 1 ptr) rest h)
      (read_handle_ptr-pointer ptr small)

-- No field with the number f.
abbrev pub AllOther : ℕ → List Field → Type 0
AllOther f [] = Unit {0}
AllOther f (x ∷ xs) = (field_number x ≢ f) × AllOther f xs

append_fields-append :
    (buf : Bytes) (xs ys : List Field)
    → append_fields buf (xs ++ ys) ≡ append_fields (append_fields buf xs) ys
append_fields-append buf [] ys = refl
append_fields-append buf (x ∷ xs) ys = append_fields-append (append_field buf x) xs ys

AllFields-append :
    (xs : List Field) (x : Field) (ys : List Field)
    → AllFields xs
    → IsField x
    → AllFields ys
    → AllFields (xs ++ x ∷ ys)
AllFields-append [] x ys a b c = (b, c)
AllFields-append (z ∷ xs) x ys (a, rest) b c = (a, AllFields-append xs x ys rest b c)

module _ (f ptr : ℕ) (read : ℕ → PbReader → Option ℕ) (x : Field) (here : field_number x ≡ f)
    (reads : Reads (read (wire_type x)) ptr x) (ys : List Field) where
  first-FirstRead :
      (xs : List Field) → AllOther f xs → FirstRead (is_field f) read (λ y. ptr) (xs ++ x ∷ ys)
  first-FirstRead [] other = ((λ e. reads), (λ e. absurd (ground (arith, here, e))))
  first-FirstRead (z ∷ xs) (n, other) =
      ((λ e. absurd (n ((==_iff _ f).0 e))), (λ e. first-FirstRead xs other))

  first-here :
      (xs : List Field)
      → AllOther f xs
      → first {A = ℕ} (is_field f) (λ y. ptr) (xs ++ x ∷ ys) ≡ some ptr
  first-here [] other = rw ((==_iff (field_number x) f).1 here) refl
  first-here (z ∷ xs) (n, other) =
      let e : (field_number z == f) ≡ false = ground (arith, n) in rw e (first-here xs other)

  pub scanned :
      (xs : List Field)
      → AllFields (xs ++ x ∷ ys)
      → AllOther f xs
      → length (append_fields [] (xs ++ x ∷ ys)) < 2 ^ 63
      → or_zero 0 (scan_message (append_fields [] (xs ++ x ∷ ys)) (is_field f) read) ≡ some ptr
  unfolding or_zero
  scanned xs all other short =
      rw
        (
          scan_message-append_fields (is_field f) read (λ y. ptr) (xs ++ x ∷ ys) all
              (first-FirstRead xs other) short,
          first-here xs other,
        )
        refl

-- A handle round trips: of a message with a handle that pbAppendHandle wrote into the field f, first of
-- that number and between whatever other fields, readPtrAtField gives the pointer, on its fast path for
-- field 1 as well as on the walk over other fields. The field numbers are below 2 ^ 29, the pointer is a
-- uint64, and the message has fewer than 2 ^ 63 bytes.
pub read_ptr_at_field-append_handle :
    (f ptr : ℕ) (xs ys : List Field)
    → f < 2 ^ 29
    → ptr < 2 ^ 64
    → AllFields xs
    → AllFields ys
    → AllOther f xs
    → length (append_fields (append_handle (append_fields [] xs) f ptr) ys) < 2 ^ 63
    → read_ptr_at_field (append_fields (append_handle (append_fields [] xs) f ptr) ys) f ≡ some ptr
unfolding read_ptr_at_field read_handle_ptr
read_ptr_at_field-append_handle f ptr xs ys lt small all all' other short =
    let pointer = append_uint64 [] 1 ptr in
    let message : append_fields (append_handle (append_fields [] xs) f ptr) ys
        ≡ append_fields [] (xs ++ chunk f pointer ∷ ys) =
      ap (λ (b : Bytes). append_fields b ys) (append_handle-eq (append_fields [] xs) f ptr)
      ∙ sym (append_fields-append [] xs (chunk f pointer ∷ ys)) in
    let in_range =
      AllFields-append xs (chunk f pointer) ys all (lt, omega (arith, length-pointer ptr)) all' in
    let total = rw message at short in
    elim (Bool-cases (f == 1)) [
      | inl e ↦
          rw (message, e)
            (ap
                (λ (n : ℕ). or_zero 0 (
                  scan_message (append_fields [] (xs ++ chunk f pointer ∷ ys)) (is_field n)
                    handle_field))
                (sym ((==_iff f 1).0 e))
              ∙ scanned f ptr handle_field (chunk f pointer) refl (handle_field-Reads f ptr small)
                  ys xs in_range other total)
      | inr e ↦
          rw (message, e)
            (scanned f ptr ptr_field (chunk f pointer) refl (ptr_field-Reads f ptr small) ys xs
              in_range other total)
    ]
