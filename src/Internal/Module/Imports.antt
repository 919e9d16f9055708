-- ===== src/Internal/Module/Imports.antt =====
-- The host side of the module's imports, envStubs and wasmifyStubs of internal/python.go, and the handles
-- whose concrete_type type the guest names.
use go_python.Prelude.{
  ℕ, zero, suc, Bytes, text, Option, none, some, List, [], ◌∷◌, ◌++◌, if◌then◌else◌, same,
}
use go_python.Value.{Result, ok, err, Error, errorf, wrapped, panic_error}
use go_python.Internal.Start.{hex_digits}
use go_python.Internal.Proto.Handles.{read_ptr_at_field, kept}
use go_python.Internal.Module.{Wasm, Callbacks, handle_callback, resolve_type_name, out_of_range}

-- envStubs.Dlerror, Dlopen, Dlsym and Getpid
abbrev pub dlerror : ℕ
dlerror = 0

abbrev pub dlopen : ℕ → ℕ → ℕ
dlopen file mode = 0

abbrev pub dlsym : ℕ → ℕ → ℕ
dlsym lib name = 0

abbrev pub getpid : ℕ
getpid = 0

-- envStubs.X__cxa_throw: the panic that ends the export.
abbrev pub cxa_throw : ℕ → ℕ → ℕ → Error
cxa_throw ptr type destructor = panic_error (text "wasm: C++ exception thrown")

-- cppTypeNames and cppTypeFactories: this service has no abstract types.
abbrev pub cpp_type_names : List Bytes
cpp_type_names = []

abbrev pub cpp_type_factories : {A : Type 0} → List (ℕ → A)
cpp_type_factories = []

module _ (wasm : Wasm) where
  open wasm use {State, alloc}

  -- envStubs.X__cxa_allocate_exception
  unfoldable pub cxa_allocate_exception : ℕ → State → ℕ × State
  cxa_allocate_exception zero s = alloc 64 s
  cxa_allocate_exception (suc n) s = alloc (suc n) s

  -- wasmifyStubs.Callback_invoke
  unfoldable pub callback_invoke : Callbacks wasm → ℕ → ℕ → ℕ → ℕ → State → Result ℕ × State
  callback_invoke m callback_id method_id req_ptr req_len s =
      handle_callback wasm m callback_id method_id req_ptr req_len s

  -- WasmifyGetTypeName, sort.SearchStrings, and the verb %q of package fmt.
  module _ (get_type_name : ℕ → ℕ → State → ℕ × State) (search : List Bytes → Bytes → ℕ)
      (quote : Bytes → Bytes) where
    unknown_type : Bytes → ℕ → Error
    unknown_type name ptr = errorf (
        text "unknown C++ type "
        ++ (quote name ++ (text " for ptr 0x" ++ hex_digits (suc ptr) ptr [])))

    -- The factory at the index of the name, if the name stands there.
    factory_at : {A : Type 0} → List Bytes → List (ℕ → A) → Bytes → ℕ → ℕ → Result A
    unfolding unknown_type
    factory_at [] fs name i ptr = err (unknown_type name ptr)
    factory_at (n ∷ ns) [] name zero ptr =
        err (if same n name then out_of_range else unknown_type name ptr)
    factory_at (n ∷ ns) (f ∷ fs) name zero ptr =
        if same n name then ok (f ptr) else err (unknown_type name ptr)
    factory_at (n ∷ ns) [] name (suc i) ptr = factory_at ns [] name i ptr
    factory_at (n ∷ ns) (f ∷ fs) name (suc i) ptr = factory_at ns fs name i ptr

    concrete_type : {A : Type 0} → ℕ → Result Bytes → Result A
    unfolding factory_at
    concrete_type ptr (err e) = err (wrapped (text "resolveTypeName: ") e)
    concrete_type ptr (ok name) =
        factory_at cpp_type_names cpp_type_factories name (search cpp_type_names name) ptr

    -- resolveAbstractHandle
    unfoldable pub resolve_abstract_handle : {A : Type 0} → ℕ → State → Result A × State
    unfolding concrete_type
    resolve_abstract_handle ptr s =
        let (name, s') = resolve_type_name wasm get_type_name ptr s in (concrete_type ptr name, s')

    -- The assertion to an interface, which has a name, of a value of some type.
    module _ {A I O : Type 0} (as_interface : A → Option I) (type_name : A → Bytes)
        (set_keep_alive : Option (O → I → I)) where
      asserted : Bytes → Option O → A → Option I → Result (Option I)
      asserted iface owner a none = err (
          errorf (text "resolved type " ++ (type_name a ++ (text " does not implement " ++ iface))))
      asserted iface owner a (some v) = ok (some (kept set_keep_alive owner v))

      resolved_as : Bytes → Option O → Result A × State → Result (Option I) × State
      unfolding asserted
      resolved_as iface owner (err e, s) = (err e, s)
      resolved_as iface owner (ok a, s) = (asserted iface owner a (as_interface a), s)

      -- decodeAbstractAs: the inner `none` is the zero value of the interface.
      unfoldable pub decode_abstract_as :
          Bytes → ℕ → Option O → Bytes → State → Result (Option I) × State
      unfolding resolved_as
      decode_abstract_as resp field owner iface s = elim (read_ptr_at_field resp field) [
        | none ↦ (err out_of_range, s)
        | some zero ↦ (ok none, s)
        | some (suc p) ↦ resolved_as iface owner (resolve_abstract_handle (suc p) s)
      ]
