-- ===== src/Value.antt =====
-- The values that cross the bridge: value.go, the handle types of object.go, and the error of
-- bridge.go. A Go interface value that may be nil is a data type with a constructor for nil.
-- `float64` is its bit pattern (math.Float64bits), below 2 ^ 64; a `string` is its bytes.
pub mod Kind
pub mod Convert
use go_python.Prelude.{
  refl, inl, inr, ◌⊎◌, inr, inl, ◌⊎◌, ℕ, ◌+◌, ◌-◌, ◌^◌, ◌<◌, ◌≤◌, ◌≡◌, ℤ, pos, negsuc, Bytes, text,
  Bool, true, false, Option, none, some, List, [], ◌∷◌, ◌++◌, ltb, leb, ◌==◌, if◌then◌else◌, ◌&&◌,
}

-- One pin on a guest object. `owner` is the identity of the `*Python` that `p` points to; `released`
-- is the flag as an operation loads it.
pub record ObjectHandle : Type 0 where
  pub owner : ℕ
  pub id : ℕ
  pub kind : ℕ
  pub callable : Bool
  pub type_name : Bytes
  pub released : Bool

-- The implementations of the `ObjectValue` interface.
pub data ObjectValue : Type 0 where
  list_value tuple_value dict_value set_value frozen_set_value : ObjectHandle → ObjectValue
  function_value class_value module_value plain_object : ObjectHandle → ObjectValue

pub record IntValue : Type 0 where
  pub i : ℤ
  pub big : Option ℤ

-- `nil` is the nil interface.
pub data Value : Type 0 where
  nil : Value
  none_value : Value
  bool_value : Bool → Value
  int_value : IntValue → Value
  float_value : ℕ → Value
  complex_value : ℕ → ℕ → Value
  str_value : Bytes → Value
  bytes_value : Bytes → Value
  object_value : ObjectValue → Value

-- `value` is `none` for a nil `Value` field.
pub record PythonError : Type 0 where
  pub type : Bytes
  pub message : Bytes
  pub traceback : Bytes
  pub value : Option ObjectValue

-- The errors of the module: `errorf` is fmt.Errorf with no %w and `wrapped` is "prefix: %w" (or
-- "suffix" after it); `canceled` is ctx.Err(), `closed` is ErrClosed, `exit_error` is
-- *internal.ExitError, `wasi_exit` is *base.WasiExitError.
pub data Error : Type 0 where
  errorf : Bytes → Error
  wrapped : Bytes → Error → Error
  python_error : PythonError → Error
  exit_error : ℤ → Error
  wasi_exit : ℤ → Bytes → Error
  panic_error : Bytes → Error
  canceled : Error
  closed : Error

-- A value and an error, of which the source's functions return one.
pub data Result {ℓ} (A : Type ℓ) : Type ℓ where
  err : Error → Result A
  ok : A → Result A

-- `if err != nil { return err }`
infixl 5 ◌>>=◌
abbrev pub ◌>>=◌ {ℓ κ} : {B : Type κ} {A : Type ℓ} → Result A → (A → Result B) → Result B
err e >>= next = err e
ok a >>= next = next a

abbrev pub map_error {ℓ} : {A : Type ℓ} → (Error → Error) → Result A → Result A
map_error f (ok a) = ok a
map_error f (err e) = err (f e)

-- ObjectValue.handle()
abbrev pub handle : ObjectValue → ObjectHandle
handle (list_value h) = h
handle (tuple_value h) = h
handle (dict_value h) = h
handle (set_value h) = h
handle (frozen_set_value h) = h
handle (function_value h) = h
handle (class_value h) = h
handle (module_value h) = h
handle (plain_object h) = h

-- object.TypeName and object.Callable
pub type_name : ObjectValue → Bytes
type_name o = (handle o).type_name

pub callable : ObjectValue → Bool
callable o = (handle o).callable

-- object.Equal: Python's `is`. `other` is `none` for a nil interface.
unfoldable pub equal : ObjectValue → Option ObjectValue → Bool
equal o none = false
equal o (some other) =
    (handle other).owner == (handle o).owner && (handle other).id == (handle o).id

-- newObjectHandle; the finalizer that it sets is `finalize` of Instance.Release.
abbrev pub new_object_handle : ℕ → ℕ → ℕ → Bool → Bytes → ObjectHandle
new_object_handle p i k c n = record {
  owner = p;
  id = i;
  kind = k;
  callable = c;
  type_name = n;
  released = false;
}

abbrev pub none_of : Value
none_of = none_value

-- IntValue.Int64, IntValue.IsBig and IntValue.BigInt
unfoldable pub int64 : IntValue → ℤ × Bool
int64 v = elim v.big [ some b ↦ (pos 0, false) | none ↦ (v.i, true) ]

unfoldable pub is_big : IntValue → Bool
is_big v = elim v.big [ some b ↦ true | none ↦ false ]

unfoldable pub big_int : IntValue → ℤ
big_int v = elim v.big [ some b ↦ b | none ↦ v.i ]

pub Result-cases {ℓ} :
    {A : Type ℓ} (r : Result A) → ((a : A) × (r ≡ ok a)) ⊎ ((e : Error) × (r ≡ err e))
Result-cases (ok a) = inl (a, refl)
Result-cases (err e) = inr (e, refl)
