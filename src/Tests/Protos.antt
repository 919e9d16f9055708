-- ===== src/Tests/Protos.antt =====
-- The theorems on protobuf messages at concrete inputs.
use go_python.Prelude.{ℕ, ◌≡◌, refl, text, true, some, List, [], ◌∷◌, length, arith, pos, negsuc}
use go_python.Internal.Proto.{
  append_varint, append_varint_loop, append_tag, append_uint64, append_bytes, append_int32,
  read_bytes_at_field, read_scalar_at_field,
}
use go_python.Internal.Proto.Scalars.{append_float, append_bool}
use go_python.Internal.Proto.Message.{Field, number, chunk, fixed32, append_fields}
use go_python.Internal.Proto.Chunks.{read_bytes_at_field-append_fields}
use go_python.Internal.Proto.Typed.{
  Scalar, an_int32, bool_scalar, int32_scalar, float_scalar, bytes_scalar, read_as,
}
use go_python.Internal.Proto.ReadScalar.{append_scalars, read_scalar_at_field-append_scalars}
use go_python.Internal.Proto.Handles.{
  varint_len, append_handle, append_submessage, read_ptr_at_field, varint_len_loop,
}
use go_python.Internal.Proto.Pointers.{
  append_handle-append_submessage, read_ptr_at_field-append_handle,
}
use go_python.Wire.LittleEndian.{le_bytes, to_uint64}

abbrev four_fields : List Field
four_fields = number 1 300 ∷ chunk 3 (text "ab") ∷ chunk 2 (text "cd") ∷ chunk 2 [] ∷ []

read_bytes_at_field-append_fields_example :
    read_bytes_at_field (append_fields [] four_fields) 2 ≡ some (text "cd")
unfolding text append_bytes append_uint64 append_tag append_varint append_varint_loop
read_bytes_at_field-append_fields_example =
    read_bytes_at_field-append_fields 2 four_fields
      (
        (omega arith, omega arith),
        (
          (omega arith, omega arith),
          ((omega arith, omega arith), ((omega arith, omega arith), tt)),
        ),
      )
      ((λ e. cc), tt) (omega arith)

abbrev some_scalars : List (ℕ × Scalar)
some_scalars =
    (2, bytes_scalar (text "ab"))
    ∷ (4, float_scalar 1065353216)
    ∷ (1, bool_scalar true)
    ∷ (3, int32_scalar (negsuc 6))
    ∷ (3, int32_scalar (pos 1))
    ∷ []

read_scalar_at_field-append_scalars_example :
    read_scalar_at_field
      (int32_scalar (pos 0))
      (append_scalars [] some_scalars)
      3
      (read_as an_int32)
    ≡ some (int32_scalar (negsuc 6))
unfolding text append_bytes append_uint64 append_tag append_varint append_varint_loop append_float
    append_bool append_int32 le_bytes to_uint64
read_scalar_at_field-append_scalars_example =
    read_scalar_at_field-append_scalars 3 an_int32 (int32_scalar (pos 0)) some_scalars
      (
        (omega arith, omega arith, (λ e. cc)),
        (
          (omega arith, omega arith, (λ e. cc)),
          (
            (omega arith, tt, (λ e. cc)),
            (
              (omega arith, omega arith, (λ e. refl)),
              ((omega arith, omega arith, (λ e. refl)), tt),
            ),
          ),
        ),
      )
      (omega arith)

append_handle-append_submessage_example :
    (varint_len 300 ≡ length (append_varint [] 300))
    × (append_handle (1 ∷ []) 5 300 ≡ append_submessage (1 ∷ []) 5 (append_uint64 [] 1 300))
    × (append_handle (1 ∷ []) 5 300 ≡ append_bytes (1 ∷ []) 5 (append_uint64 [] 1 300))
append_handle-append_submessage_example = append_handle-append_submessage (1 ∷ []) 5 300

read_ptr_at_field-append_handle_example :
    read_ptr_at_field
      (append_fields (append_handle (append_fields [] (fixed32 2 7 ∷ [])) 1 300) (number 1 4 ∷ []))
      1
    ≡ some 300
unfolding append_bytes append_uint64 append_tag append_varint append_varint_loop append_float
    le_bytes append_handle varint_len varint_len_loop
read_ptr_at_field-append_handle_example =
    read_ptr_at_field-append_handle 1 300 (fixed32 2 7 ∷ []) (number 1 4 ∷ []) (omega arith)
      (omega arith) ((omega arith, omega arith), tt) ((omega arith, omega arith), tt)
      ((λ e. cc), tt) (omega arith)
