-- ===== src/Wire/Encode.antt =====
-- The encoder of wire.go. `p` is the identity of the instance that encodes; each function appends
-- to the buffer `b`, as the source does.
use go_python.Prelude.{
  ℕ, suc, ◌+◌, ◌*◌, ◌%◌, ◌^◌, Bytes, text, itoa, Bool, true, false, not, Option, none, some, List,
  [], ◌∷◌, ◌++◌, length, ◌==◌, if◌then◌else◌, ℤ, pos, negsuc,
}
use go_python.Value.{
  Value, nil, none_value, bool_value, int_value, float_value, complex_value, str_value, bytes_value,
  object_value, ObjectHandle, handle, Result, ok, err, Error, errorf, wrapped, map_error, ◌>>=◌,
}
use go_python.Wire.Tags.{
  wire_none, wire_bool, wire_int, wire_big_int, wire_float, wire_complex, wire_str, wire_bytes,
  wire_object, flag_callable,
}
use go_python.Wire.LittleEndian.{
  append_u16, append_u32, append_u64, append_f64, append_len_bytes, to_uint64,
}
use go_python.Wire.Magnitude.{big_bytes, reversed}

abbrev pub byte_of_bool : Bool → ℕ
byte_of_bool true = 1
byte_of_bool false = 0

abbrev pub released_error : Error
released_error = errorf (text "python: object handle has been released")

abbrev pub foreign_error : Error
foreign_error = errorf (text "python: value belongs to a different Python instance")

-- encodeHandle. The type name travels guest->host only, so its length is sent as 0.
unfoldable pub encode_handle : ℕ → Bytes → ObjectHandle → Result Bytes
encode_handle p b h =
    if h.released
    then err released_error
    else if not (h.owner == p)
    then err foreign_error
    else ok (
        append_u16
          (append_u64 (b ++ wire_object ∷ []) h.id
            ++ h.kind ∷ (if h.callable then flag_callable else 0) ∷ [])
          0)

unfoldable pub magnitude : ℤ → ℕ
magnitude (pos n) = n
magnitude (negsuc n) = suc n

unfoldable pub is_negative : ℤ → Bool
is_negative (pos n) = false
is_negative (negsuc n) = true

unfoldable pub encode_int : Bytes → ℤ → Option ℤ → Bytes
encode_int b i none = append_u64 (b ++ wire_int ∷ []) (to_uint64 i)
encode_int b i (some n) =
    append_len_bytes ((b ++ wire_big_int ∷ []) ++ byte_of_bool (is_negative n) ∷ [])
      (reversed (big_bytes (magnitude n)))

-- encodeValue. Its default case cannot be reached: the interface is sealed.
unfoldable pub encode_value : ℕ → Bytes → Value → Result Bytes
unfolding encode_int
encode_value p b nil = ok (b ++ wire_none ∷ [])
encode_value p b none_value = ok (b ++ wire_none ∷ [])
encode_value p b (bool_value x) = ok ((b ++ wire_bool ∷ []) ++ byte_of_bool x ∷ [])
encode_value p b (int_value x) = ok (encode_int b x.i x.big)
encode_value p b (float_value f) = ok (append_f64 (b ++ wire_float ∷ []) f)
encode_value p b (complex_value re im) = ok (append_f64 (append_f64 (b ++ wire_complex ∷ []) re) im)
encode_value p b (str_value s) = ok (append_len_bytes (b ++ wire_str ∷ []) s)
encode_value p b (bytes_value s) = ok (append_len_bytes (b ++ wire_bytes ∷ []) s)
encode_value p b (object_value o) = encode_handle p b (handle o)

-- encodeSingle
unfoldable pub encode_single : ℕ → Value → Result Bytes
encode_single p v = encode_value p [] v

-- The loop of encodeList, from element i on.
unfoldable pub encode_elements : ℕ → ℕ → Bytes → List Value → Result Bytes
encode_elements p i b [] = ok b
encode_elements p i b (v ∷ vals) = do
  b' ← map_error (wrapped (text "element " ++ (itoa i ++ text ": "))) (encode_value p b v)
  encode_elements p (i + 1) b' vals

-- encodeList
unfoldable pub encode_list : ℕ → List Value → Result Bytes
encode_list p vals = encode_elements p 0 (append_u32 [] (length vals % 2 ^ 32)) vals

pub record DictItem : Type 0 where
  pub key : Value
  pub value : Value

item_error : ℕ → Bytes → Error → Error
item_error i what = wrapped (text "item " ++ (itoa i ++ what))

-- The loop of encodeDictItems, from item i on.
unfoldable pub encode_items : ℕ → ℕ → Bytes → List DictItem → Result Bytes
unfolding item_error
encode_items p i b [] = ok b
encode_items p i b (it ∷ items) = do
  b' ← map_error (item_error i (text " key: ")) (encode_value p b it.key)
  b'' ← map_error (item_error i (text " value: ")) (encode_value p b' it.value)
  encode_items p (i + 1) b'' items

-- encodeDictItems
unfoldable pub encode_dict_items : ℕ → List DictItem → Result Bytes
encode_dict_items p items = encode_items p 0 (append_u32 [] (2 * length items % 2 ^ 32)) items

-- An argument of a call: a Value (a nil one is None) or a keyword argument.
pub data Arg : Type 0 where
  positional_arg : Value → Arg
  kwarg : Bytes → Value → Arg

-- Kwarg: a nil value is None.
unfoldable pub make_kwarg : Bytes → Value → Arg
make_kwarg name nil = kwarg name none_value
make_kwarg name v = kwarg name v

-- The first loop of encodeCallArgs splits the arguments.
unfoldable pub positionals : List Arg → List Value
positionals [] = []
positionals (positional_arg nil ∷ args) = none_value ∷ positionals args
positionals (positional_arg v ∷ args) = v ∷ positionals args
positionals (kwarg name v ∷ args) = positionals args

unfoldable pub keywords : List Arg → List (Bytes × Value)
keywords [] = []
keywords (positional_arg v ∷ args) = keywords args
keywords (kwarg name v ∷ args) = (name, v) ∷ keywords args

-- The second loop of encodeCallArgs.
unfoldable pub encode_keywords : ℕ → Bytes → List (Bytes × Value) → Result Bytes
encode_keywords p b [] = ok b
encode_keywords p b ((name, v) ∷ rest) = do
  b' ←
      map_error (wrapped (text "keyword argument " ++ (name ++ text ": ")))
        (encode_value p (append_len_bytes b name) v)
  encode_keywords p b' rest

-- encodeCallArgs: the positional node list and the keyword list.
unfoldable pub encode_call_args : ℕ → List Arg → Result (Bytes × Bytes)
encode_call_args p args = do
  pos_list ← encode_list p (positionals args)
  kw ← encode_keywords p (append_u32 [] (length (keywords args) % 2 ^ 32)) (keywords args)
  ok (pos_list, kw)
