-- ===== src/Value/Kind.antt =====
-- Kinds and checked extraction: Kind, its String, and As (value.go), with the Kind method of each
-- concrete type (value.go, object.go).
use go_python.Prelude.{
  ℕ, ◌==◌, if◌then◌else◌, get_or, ◌≡◌, Bytes, text, itoa, Bool, true, false, Option, none, some,
  List, [], ◌∷◌, ◌++◌, get_elem?, arith, ◌↔◌,
}
use go_python.Value.{
  Value, nil, none_value, bool_value, int_value, float_value, complex_value, str_value, bytes_value,
  object_value, ObjectValue, list_value, tuple_value, dict_value, set_value, frozen_set_value,
  function_value, class_value, module_value, plain_object, Result, ok, err, Error, errorf,
}

-- The iota constants, in the source's order.
abbrev pub kind_none : ℕ
kind_none = 0

abbrev pub kind_bool : ℕ
kind_bool = 1

abbrev pub kind_int : ℕ
kind_int = 2

abbrev pub kind_float : ℕ
kind_float = 3

abbrev pub kind_complex : ℕ
kind_complex = 4

abbrev pub kind_str : ℕ
kind_str = 5

abbrev pub kind_bytes : ℕ
kind_bytes = 6

abbrev pub kind_list : ℕ
kind_list = 7

abbrev pub kind_tuple : ℕ
kind_tuple = 8

abbrev pub kind_dict : ℕ
kind_dict = 9

abbrev pub kind_set : ℕ
kind_set = 10

abbrev pub kind_frozen_set : ℕ
kind_frozen_set = 11

abbrev pub kind_function : ℕ
kind_function = 12

abbrev pub kind_class : ℕ
kind_class = 13

abbrev pub kind_module : ℕ
kind_module = 14

abbrev pub kind_object : ℕ
kind_object = 15

abbrev pub kind_names : List Bytes
kind_names =
    text "none"
    ∷ text "bool"
    ∷ text "int"
    ∷ text "float"
    ∷ text "complex"
    ∷ text "str"
    ∷ text "bytes"
    ∷ text "list"
    ∷ text "tuple"
    ∷ text "dict"
    ∷ text "set"
    ∷ text "frozenset"
    ∷ text "function"
    ∷ text "class"
    ∷ text "module"
    ∷ text "object"
    ∷ []

-- Kind.String: the table, and kind(N) past its end.
unfoldable pub kind_string : ℕ → Bytes
kind_string k = elim (get_elem? kind_names k) [
  | some name ↦ name
  | none ↦ text "kind(" ++ (itoa k ++ text ")")
]

unfoldable pub object_kind : ObjectValue → ℕ
object_kind (list_value h) = kind_list
object_kind (tuple_value h) = kind_tuple
object_kind (dict_value h) = kind_dict
object_kind (set_value h) = kind_set
object_kind (frozen_set_value h) = kind_frozen_set
object_kind (function_value h) = kind_function
object_kind (class_value h) = kind_class
object_kind (module_value h) = kind_module
object_kind (plain_object h) = kind_object

-- v.Kind() for the interface; `none` is the nil dereference of a nil interface.
unfoldable pub kind : Value → Option ℕ
unfolding object_kind
kind nil = none
kind none_value = some kind_none
kind (bool_value b) = some kind_bool
kind (int_value v) = some kind_int
kind (float_value f) = some kind_float
kind (complex_value re im) = some kind_complex
kind (str_value s) = some kind_str
kind (bytes_value b) = some kind_bytes
kind (object_value o) = some (object_kind o)

-- The type parameter T of `As`: a concrete type, by its kind, or the ObjectValue interface.
pub data Target : Type 0 where
  concrete : ℕ → Target
  object_interface : Target

is_object : Value → Bool
is_object (object_value o) = true
is_object _ = false

-- The dynamic type test v.(T).
unfoldable pub has_type : Target → Value → Bool
unfolding is_object
has_type (concrete k) v = elim (kind v) [ none ↦ false | some j ↦ k == j ]
has_type object_interface v = is_object v

abbrev type_names : List Bytes
type_names =
    text "python.NoneValue"
    ∷ text "python.BoolValue"
    ∷ text "python.IntValue"
    ∷ text "python.FloatValue"
    ∷ text "python.ComplexValue"
    ∷ text "python.StrValue"
    ∷ text "python.BytesValue"
    ∷ text "python.ListValue"
    ∷ text "python.TupleValue"
    ∷ text "python.DictValue"
    ∷ text "python.SetValue"
    ∷ text "python.FrozenSetValue"
    ∷ text "python.FunctionValue"
    ∷ text "python.ClassValue"
    ∷ text "python.ModuleValue"
    ∷ []

-- What %T prints for `var zero T`.
target_name : Target → Bytes
target_name (concrete k) = get_or type_names k (text "python.object")
target_name object_interface = text "<nil>"

mismatch : Target → Option ℕ → Error
unfolding target_name kind_string
mismatch t none = errorf (text "python: value is nil, not " ++ target_name t)
mismatch t (some k) =
    errorf (text "python: value is " ++ (kind_string k ++ (text ", not " ++ target_name t)))

-- As[T]
unfoldable pub as_type : Target → Value → Result Value
unfolding mismatch
as_type t v = if has_type t v then ok v else err (mismatch t (kind v))

-- `As` to a concrete type gives the value itself exactly when its kind is the one asked for; every
-- other value, nil included, is an error.
pub as_type-eq-ok :
    (k : ℕ) (v w : Value) → ((as_type (concrete k) v ≡ ok w) ↔ ((kind v ≡ some k) × (v ≡ w)))
unfolding as_type has_type
as_type-eq-ok k v w = (λ h. ground arith, λ h. ground arith)
