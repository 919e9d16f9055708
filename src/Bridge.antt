-- ===== src/Bridge.antt =====
-- The Python -> Go half of the function bridge (bridge.go): the function table, the callback handler
-- and the encoding of its failures. A GoFunc is a function to its outcome: what it returns, or a panic.
-- An error in which errors.As finds a nil *PythonError, which only a GoFunc can make, has an outcome of its
-- own, since callbackRaised dereferences it, outside of safeCall.
pub mod Callback
pub mod Table
pub mod Called
use go_python.Prelude.{
  ℕ, zero, suc, ◌+◌, ◌%◌, ◌^◌, ◌≡◌, refl, Bytes, text, itoa_ℤ, int32, Bool, true, false, ◌&&◌, not,
  Option, none, some, List, [], ◌∷◌, ◌++◌, ltb, ◌==◌, if◌then◌else◌,
}
use go_python.Value.{
  Value, ObjectValue, handle, PythonError, Result, ok, err, Error, errorf, wrapped, panic_error,
}
use go_python.Errors.{error_string, as_python_error}
use go_python.Wire.Tags.{wire_ok, wire_raised}
use go_python.Wire.LittleEndian.{append_len_bytes}
use go_python.Wire.Encode.{encode_handle, encode_value}
use go_python.Wire.Reader.{NodeReader, new_reader, Read, u32, len_bytes}
use go_python.Wire.Decode.{decode_node, decode_nodes}

-- What a call of a GoFunc comes to. `panics` carries the panic's value as %v prints it.
pub data Outcome : Type 0 where
  returns : Result Value → Outcome
  returns_nil_error : Outcome
  panics : Bytes → Outcome

-- `kwargs map[string]Value` is the list of its entries, the latest first: `lookup` finds the value that
-- a later entry of the same name has written over an earlier one.
abbrev pub Kwargs : Type 0
Kwargs = List (Bytes × Value)

abbrev pub GoFunc : Type 0
GoFunc = List Value → Kwargs → Outcome

-- safeCall; `none` is an error with a nil *PythonError.
unfoldable pub safe_call : GoFunc → List Value → Kwargs → Option (Result Value)
safe_call fn args kwargs = elim (fn args kwargs) [
  | returns r ↦ some r
  | returns_nil_error ↦ none
  | panics v ↦ some (err (errorf (text "Go function panicked: " ++ v)))
]

-- `pe.Value` of a nil *PythonError in callbackRaised
abbrev pub nil_dereference : Error
nil_dereference =
    panic_error (text "runtime error: invalid memory address or nil pointer dereference")

raised_text : Error → Bytes
raised_text e = append_len_bytes (wire_raised ∷ 0 ∷ []) (error_string e)

raised_handle : ℕ → Error → ObjectValue → Bytes
unfolding raised_text
raised_handle p e o = elim (encode_handle p (wire_raised ∷ 1 ∷ []) (handle o)) [
  | ok b ↦ b
  | err _ ↦ raised_text e
]

live_value : Option PythonError → Option ObjectValue
live_value none = none
live_value (some pe) = pe.value

-- callbackRaised, of an error without a nil *PythonError: the live exception that the error carries, else RuntimeError with its text.
unfoldable pub callback_raised : ℕ → Error → Bytes
unfolding raised_handle raised_text live_value
callback_raised p e = elim (live_value (as_python_error e)) [
  | some o ↦ raised_handle p e o
  | none ↦ raised_text e
]

continue_kwargs :
    Bytes → Kwargs → Result Value → (Kwargs → Read (Result Kwargs)) → Read (Result Kwargs)
continue_kwargs name acc (err e) more r = (err e, r)
continue_kwargs name acc (ok v) more r = more ((name, v) ∷ acc) r

-- The keyword loop: a name and a node in each round. The name's failure is not looked at.
unfoldable pub decode_kwargs : ℕ → ℕ → Kwargs → Read (Result Kwargs)
unfolding continue_kwargs
decode_kwargs p zero acc r = (ok acc, r)
decode_kwargs p (suc n) acc r =
    let (name, r1) = len_bytes r in
    let (v, r2) = decode_node p r1 in continue_kwargs name acc v (λ acc'. decode_kwargs p n acc') r2

-- The table of bound functions, by id. The ids are bit patterns of int32.
pub record Functions : Type 0 where
  pub funcs : List (ℕ × GoFunc)
  pub next_func_id : ℕ

unfoldable pub lookup_func : ℕ → List (ℕ × GoFunc) → Option GoFunc
lookup_func id [] = none
lookup_func id ((j, fn) ∷ rest) = if j == id then some fn else lookup_func id rest

-- The registration in NewFunction: the next id, which wraps around, and the function under it in place of
-- one that was there.
unfoldable pub register : GoFunc → Functions → ℕ × Functions
register fn t =
    let id = (t.next_func_id + 1) % 2 ^ 32 in
    (id, record { funcs = (id, fn) ∷ t.funcs; next_func_id = id })

-- The arguments of a request: the positional list, then the keyword list, which is left out where its
-- count cannot be read.
unfoldable pub keyword_part : ℕ → Read (Result Kwargs)
keyword_part p r =
    let (count, r') = u32 r in
    let kwargs = (decode_kwargs p count [] r').0 in
    if ltb 0 count && not r'.fail then (kwargs, r') else (ok [], r')

unfoldable pub request_kwargs : List Value → Result Kwargs → Result (List Value × Kwargs)
request_kwargs vs (err e) = err (wrapped (text "decode keyword arguments: ") e)
request_kwargs vs (ok kws) = ok (vs, kws)

unfoldable pub request_args : ℕ → Result (List Value) × NodeReader → Result (List Value × Kwargs)
request_args p (err e, r) = err (wrapped (text "decode arguments: ") e)
request_args p (ok vs, r) = request_kwargs vs (keyword_part p r).0

unfoldable pub request_counted : ℕ → ℕ × NodeReader → Result (List Value × Kwargs)
request_counted p (count, r) =
    let args = request_args p (decode_nodes p count r) in
    if r.fail then err (errorf (text "decode arguments: malformed argument list")) else args

unfoldable pub decode_request : ℕ → Bytes → Result (List Value × Kwargs)
unfolding request_counted request_args request_kwargs
decode_request p req = request_counted p (u32 (new_reader req))

-- The answer to what the function returned.
unfoldable pub callback_answer : ℕ → Result Value → Bytes
callback_answer p (err e) = callback_raised p e
callback_answer p (ok v) = elim (encode_value p (wire_ok ∷ []) v) [
  | ok enc ↦ enc
  | err e ↦ callback_raised p (wrapped (text "encode Go result: ") e)
]

answer_called : ℕ → Option (Result Value) → Result Bytes
answer_called p none = err nil_dereference
answer_called p (some r) = ok (callback_answer p r)

call_decoded : ℕ → GoFunc → Result (List Value × Kwargs) → Result Bytes
unfolding answer_called
call_decoded p fn (err e) = ok (callback_raised p e)
call_decoded p fn (ok (args, kwargs)) = answer_called p (safe_call fn args kwargs)

-- handleUserCallback: its error result is always nil, so an `err` is a panic.
unfoldable pub handle_user_callback : ℕ → Functions → ℕ → Bytes → Result Bytes
unfolding call_decoded
handle_user_callback p t method_id req = elim (lookup_func method_id t.funcs) [
  | none ↦
      ok (
        callback_raised p
          (errorf (text "no Go function bound for id " ++ itoa_ℤ (int32 method_id))))
  | some fn ↦ call_decoded p fn (decode_request p req)
]
