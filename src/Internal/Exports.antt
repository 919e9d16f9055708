-- ===== src/Internal/Exports.antt =====
-- The generated wrappers of internal/python.go, one for each export of the guest: invokeMethod and the
-- scalar at field 1 of the response. They run on one module, whose world they take; a `string` argument
-- comes with its length as a uint32.
pub mod Agree
pub mod Table
pub mod Constructors
use go_python.Prelude.{ℤ, pos, ℕ, ◌%◌, ◌^◌, Bytes, text, Option, none, some, []}
use go_python.Value.{Result, ok, err, Error, panic_error}
use go_python.Internal.Proto.{
  append_uint64, append_int32, append_bytes, extract_error, read_bytes_at_field,
  read_number_at_field,
}
use go_python.Internal.Instance.{Guest, World, call}

-- invokeMethod, once the call is done: the response's error is folded in.
unfoldable pub method_error : Result Bytes → Result Bytes
method_error (err e) = err e
method_error (ok resp) = elim (extract_error resp) [
  | none ↦ err (panic_error (text "slice bounds out of range"))
  | some (some e) ↦ err e
  | some none ↦ ok resp
]

-- `readScalarAtField(resp, 1, (*pbReader).readString)`
unfoldable pub string_result : Result Bytes → Result Bytes
string_result (err e) = err e
string_result (ok resp) = elim (read_bytes_at_field resp 1) [
  | none ↦ err (panic_error (text "slice bounds out of range"))
  | some s ↦ ok s
]

-- The same of readUint32 and readUint64: a number below 2 ^ w.
unfoldable pub number_result : ℕ → Result Bytes → Result ℕ
number_result w (err e) = err e
number_result w (ok resp) = elim (read_number_at_field resp 1) [
  | none ↦ err (panic_error (text "index out of range"))
  | some n ↦ ok (n % 2 ^ w)
]

unit_result : Result Bytes → Result (Unit {0})
unit_result (err e) = err e
unit_result (ok resp) = ok tt

module _ (guest : Guest) where
  abbrev pub Export : Type 0 → Type 0
  Export A = World guest → Result A × World guest

  unfoldable pub invoke_method : ℕ → Bytes → Export Bytes
  invoke_method mid req w = let (resp, w') = call guest mid req w in (method_error resp, w')

  unfoldable pub read_result : {A : Type 0} → (Result Bytes → Result A) → Export Bytes → Export A
  read_result read m w = let (resp, w') = m w in (read resp, w')

  unfoldable pub py_async_exc_addr : ℕ → Export ℕ
  py_async_exc_addr h = read_result (number_result 32) (invoke_method 0 (append_uint64 [] 1 h))

  unfoldable pub py_call : ℕ → ℕ → Bytes → ℕ → Bytes → ℕ → Export Bytes
  py_call h callable args args_len kwargs kwargs_len = read_result string_result (
      invoke_method 1 (
        append_uint64
          (append_bytes
            (append_uint64 (append_bytes (append_uint64 (append_uint64 [] 1 h) 2 callable) 3 args) 4
              args_len)
            5 kwargs)
          6 kwargs_len))

  unfoldable pub py_call_method : ℕ → ℕ → Bytes → ℕ → Bytes → ℕ → Bytes → ℕ → Export Bytes
  py_call_method h obj name name_len args args_len kwargs kwargs_len = read_result string_result (
      invoke_method 2 (
        append_uint64
          (append_bytes
            (append_uint64
              (append_bytes
                (append_uint64 (append_bytes (append_uint64 (append_uint64 [] 1 h) 2 obj) 3 name) 4
                  name_len)
                5 args)
              6 args_len)
            7 kwargs)
          8 kwargs_len))

  unfoldable pub py_close : ℕ → Export (Unit {0})
  unfolding unit_result
  py_close h = read_result unit_result (invoke_method 3 (append_uint64 [] 1 h))

  unfoldable pub py_contains : ℕ → ℕ → Bytes → ℕ → Export Bytes
  py_contains h obj key key_len = read_result string_result (
      invoke_method 4
        (append_uint64 (append_bytes (append_uint64 (append_uint64 [] 1 h) 2 obj) 3 key) 4 key_len))

  unfoldable pub py_delitem : ℕ → ℕ → Bytes → ℕ → Export Bytes
  py_delitem h obj key key_len = read_result string_result (
      invoke_method 5
        (append_uint64 (append_bytes (append_uint64 (append_uint64 [] 1 h) 2 obj) 3 key) 4 key_len))

  unfoldable pub py_dict_get : ℕ → ℕ → Bytes → ℕ → Export Bytes
  py_dict_get h obj key key_len = read_result string_result (
      invoke_method 6
        (append_uint64 (append_bytes (append_uint64 (append_uint64 [] 1 h) 2 obj) 3 key) 4 key_len))

  unfoldable pub py_dict_items : ℕ → ℕ → Export Bytes
  py_dict_items h obj =
      read_result string_result (invoke_method 7 (append_uint64 (append_uint64 [] 1 h) 2 obj))

  unfoldable pub py_dict_keys : ℕ → ℕ → Export Bytes
  py_dict_keys h obj =
      read_result string_result (invoke_method 8 (append_uint64 (append_uint64 [] 1 h) 2 obj))

  unfoldable pub py_dict_values : ℕ → ℕ → Export Bytes
  py_dict_values h obj =
      read_result string_result (invoke_method 9 (append_uint64 (append_uint64 [] 1 h) 2 obj))

  unfoldable pub py_eval : ℕ → Bytes → Export Bytes
  py_eval h src =
      read_result string_result (invoke_method 10 (append_bytes (append_uint64 [] 1 h) 2 src))

  unfoldable pub py_eval_breaker_addr : ℕ → Export ℕ
  py_eval_breaker_addr h = read_result (number_result 32) (invoke_method 11 (append_uint64 [] 1 h))

  unfoldable pub py_getattr : ℕ → ℕ → Bytes → ℕ → Export Bytes
  py_getattr h obj name name_len = read_result string_result (
      invoke_method 12 (
        append_uint64 (append_bytes (append_uint64 (append_uint64 [] 1 h) 2 obj) 3 name) 4
          name_len))

  unfoldable pub py_getitem : ℕ → ℕ → Bytes → ℕ → Export Bytes
  py_getitem h obj key key_len = read_result string_result (
      invoke_method 13
        (append_uint64 (append_bytes (append_uint64 (append_uint64 [] 1 h) 2 obj) 3 key) 4 key_len))

  unfoldable pub py_import : ℕ → Bytes → ℕ → Export Bytes
  py_import h name name_len =
      read_result string_result
        (invoke_method 14 (append_uint64 (append_bytes (append_uint64 [] 1 h) 2 name) 3 name_len))

  unfoldable pub py_isinstance : ℕ → ℕ → ℕ → Export Bytes
  py_isinstance h obj cls =
      read_result string_result
        (invoke_method 15 (append_uint64 (append_uint64 (append_uint64 [] 1 h) 2 obj) 3 cls))

  unfoldable pub py_iter : ℕ → ℕ → Export Bytes
  py_iter h obj =
      read_result string_result (invoke_method 16 (append_uint64 (append_uint64 [] 1 h) 2 obj))

  unfoldable pub py_keyboard_interrupt_obj : ℕ → Export ℕ
  py_keyboard_interrupt_obj h =
      read_result (number_result 32) (invoke_method 17 (append_uint64 [] 1 h))

  unfoldable pub py_len : ℕ → ℕ → Export Bytes
  py_len h obj =
      read_result string_result (invoke_method 18 (append_uint64 (append_uint64 [] 1 h) 2 obj))

  unfoldable pub py_list_append : ℕ → ℕ → Bytes → ℕ → Export Bytes
  py_list_append h obj elems elems_len = read_result string_result (
      invoke_method 19 (
        append_uint64 (append_bytes (append_uint64 (append_uint64 [] 1 h) 2 obj) 3 elems) 4
          elems_len))

  unfoldable pub py_new : Bytes → Export ℕ
  py_new stdlib_dir =
      read_result (number_result 64) (invoke_method 20 (append_bytes [] 1 stdlib_dir))

  unfoldable pub py_release : ℕ → Bytes → ℕ → Export Bytes
  py_release h ids ids_len =
      read_result string_result
        (invoke_method 27 (append_uint64 (append_bytes (append_uint64 [] 1 h) 2 ids) 3 ids_len))

  unfoldable pub py_repr : ℕ → ℕ → Export Bytes
  py_repr h obj =
      read_result string_result (invoke_method 28 (append_uint64 (append_uint64 [] 1 h) 2 obj))

  unfoldable pub py_set_add : ℕ → ℕ → Bytes → ℕ → Export Bytes
  py_set_add h obj val val_len = read_result string_result (
      invoke_method 29
        (append_uint64 (append_bytes (append_uint64 (append_uint64 [] 1 h) 2 obj) 3 val) 4 val_len))

  unfoldable pub py_set_discard : ℕ → ℕ → Bytes → ℕ → Export Bytes
  py_set_discard h obj val val_len = read_result string_result (
      invoke_method 30
        (append_uint64 (append_bytes (append_uint64 (append_uint64 [] 1 h) 2 obj) 3 val) 4 val_len))

  unfoldable pub py_set_go_dispatcher : ℕ → ℤ → Export (Unit {0})
  unfolding unit_result
  py_set_go_dispatcher h callback_id =
      read_result unit_result (invoke_method 31 (append_int32 (append_uint64 [] 1 h) 2 callback_id))

  unfoldable pub py_setattr : ℕ → ℕ → Bytes → ℕ → Bytes → ℕ → Export Bytes
  py_setattr h obj name name_len val val_len = read_result string_result (
      invoke_method 32 (
        append_uint64
          (append_bytes
            (append_uint64 (append_bytes (append_uint64 (append_uint64 [] 1 h) 2 obj) 3 name) 4
              name_len)
            5 val)
          6 val_len))

  unfoldable pub py_setitem : ℕ → ℕ → Bytes → ℕ → Bytes → ℕ → Export Bytes
  py_setitem h obj key key_len val val_len = read_result string_result (
      invoke_method 33 (
        append_uint64
          (append_bytes
            (append_uint64 (append_bytes (append_uint64 (append_uint64 [] 1 h) 2 obj) 3 key) 4
              key_len)
            5 val)
          6 val_len))

  unfoldable pub py_str : ℕ → ℕ → Export Bytes
  py_str h obj =
      read_result string_result (invoke_method 34 (append_uint64 (append_uint64 [] 1 h) 2 obj))
