-- ===== src/Internal/Exports/Constructors.antt =====
-- The generated wrappers of the exports that make objects.
use go_python.Prelude.{ℕ, Bytes, [], ℤ}
use go_python.Internal.Proto.{append_uint64, append_int32, append_bytes}
use go_python.Internal.Instance.{Guest}
use go_python.Internal.Exports.{Export, string_result, invoke_method, read_result}

module _ (guest : Guest) where
  unfoldable pub py_new_dict : ℕ → Bytes → ℕ → Export guest Bytes
  py_new_dict h items items_len = read_result guest string_result (
      invoke_method guest 21
        (append_uint64 (append_bytes (append_uint64 [] 1 h) 2 items) 3 items_len))

  unfoldable pub py_new_frozenset : ℕ → Bytes → ℕ → Export guest Bytes
  py_new_frozenset h elems elems_len = read_result guest string_result (
      invoke_method guest 22
        (append_uint64 (append_bytes (append_uint64 [] 1 h) 2 elems) 3 elems_len))

  unfoldable pub py_new_function : ℕ → Bytes → ℕ → ℤ → Export guest Bytes
  py_new_function h name name_len func_id = read_result guest string_result (
      invoke_method guest 23 (
        append_int32 (append_uint64 (append_bytes (append_uint64 [] 1 h) 2 name) 3 name_len) 4
          func_id))

  unfoldable pub py_new_list : ℕ → Bytes → ℕ → Export guest Bytes
  py_new_list h elems elems_len = read_result guest string_result (
      invoke_method guest 24
        (append_uint64 (append_bytes (append_uint64 [] 1 h) 2 elems) 3 elems_len))

  unfoldable pub py_new_set : ℕ → Bytes → ℕ → Export guest Bytes
  py_new_set h elems elems_len = read_result guest string_result (
      invoke_method guest 25
        (append_uint64 (append_bytes (append_uint64 [] 1 h) 2 elems) 3 elems_len))

  unfoldable pub py_new_tuple : ℕ → Bytes → ℕ → Export guest Bytes
  py_new_tuple h elems elems_len = read_result guest string_result (
      invoke_method guest 26
        (append_uint64 (append_bytes (append_uint64 [] 1 h) 2 elems) 3 elems_len))
