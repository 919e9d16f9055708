-- ===== src/Wire/Decode.antt =====
-- The node decoder of wire.go. `p` is the identity of the instance that decodes: the handles that it
-- makes belong to it. A decoder returns its result and the reader afterwards.
use Prim.Native.Nat.{bit_and}
use go_python.Prelude.{
  ℕ, zero, suc, ℤ, pos, negsuc, text, itoa, Bool, true, not, none, List, [], ◌∷◌, ◌++◌, ◌==◌,
  if◌then◌else◌,
}
use go_python.Value.{
  Value, none_value, bool_value, int_value, float_value, complex_value, str_value, bytes_value,
  object_value, ObjectHandle, ObjectValue, list_value, tuple_value, dict_value, set_value,
  frozen_set_value, function_value, class_value, module_value, plain_object, new_object_handle,
  Result, ok, err, Error, errorf, ◌>>=◌,
}
use go_python.Value.Convert.{int_from_big}
use go_python.Wire.Tags.{
  wire_none, wire_bool, wire_int, wire_big_int, wire_float, wire_complex, wire_str, wire_bytes,
  wire_object, flag_callable, kind_list, kind_tuple, kind_dict, kind_set, kind_frozen_set,
  kind_function, kind_class, kind_module,
}
use go_python.Wire.LittleEndian.{to_int64}
use go_python.Wire.Magnitude.{set_bytes, reversed}
use go_python.Wire.Reader.{NodeReader, Read, u8, u16, u64, f64, bytes, len_bytes}

-- objectFor: the concrete type that the kind byte names.
unfoldable pub object_for : ObjectHandle → ObjectValue
object_for h =
    if h.kind == kind_list
    then list_value h
    else if h.kind == kind_tuple
    then tuple_value h
    else if h.kind == kind_dict
    then dict_value h
    else if h.kind == kind_set
    then set_value h
    else if h.kind == kind_frozen_set
    then frozen_set_value h
    else if h.kind == kind_function
    then function_value h
    else if h.kind == kind_class
    then class_value h
    else if h.kind == kind_module
    then module_value h
    else plain_object h

abbrev pub node_error : Error
node_error = errorf (text "python: malformed value node")

abbrev pub tag_error : ℕ → Error
tag_error tag = errorf (text "python: unknown value node tag " ++ itoa tag)

-- The end of a case that checks r.fail.
abbrev pub checked {ℓ} : {A : Type ℓ} → Error → A → NodeReader → Result A × NodeReader
checked e v r = if r.fail then (err e, r) else (ok v, r)

-- `if neg { v.Neg(v) }`
unfoldable pub negated : Bool → ℕ → ℤ
negated true (suc n) = negsuc n
negated _ n = pos n

decode_big_int : Read (Result Value)
decode_big_int r =
    let (sign, r1) = u8 r in
    let (mag, r2) = len_bytes r1 in
    checked (errorf (text "python: malformed bigint node"))
      (int_value (int_from_big (negated (not (sign == 0)) (set_bytes (reversed mag))))) r2

decode_complex : Read (Result Value)
decode_complex r = let (re, r1) = f64 r in let (im, r2) = f64 r1 in (ok (complex_value re im), r2)

decode_str : Read (Result Value)
decode_str r =
    let (raw, r1) = len_bytes r in
    checked (errorf (text "python: malformed str node")) (str_value raw) r1

decode_bytes : Read (Result Value)
decode_bytes r =
    let (raw, r1) = len_bytes r in
    checked (errorf (text "python: malformed bytes node")) (bytes_value raw) r1

decode_object : ℕ → Read (Result Value)
decode_object p r =
    let (id, r1) = u64 r in
    let (kind, r2) = u8 r1 in
    let (flags, r3) = u8 r2 in
    let (n, r4) = u16 r3 in
    let (name, r5) = bytes n r4 in
    checked (errorf (text "python: malformed object node"))
      (object_value
        (object_for (new_object_handle p id kind (not (bit_and flags flag_callable == 0)) name)))
      r5

-- The bool, int and float cases return without a look at r.fail.
decode_bool : Read (Result Value)
decode_bool r = let (x, r1) = u8 r in (ok (bool_value (not (x == 0))), r1)

decode_int : Read (Result Value)
decode_int r = let (x, r1) = u64 r in (ok (int_value (record { i = to_int64 x; big = none })), r1)

decode_float : Read (Result Value)
decode_float r = let (x, r1) = f64 r in (ok (float_value x), r1)

-- The switch of decodeNode.
unfoldable pub decode_payload : ℕ → ℕ → Read (Result Value)
unfolding decode_big_int decode_complex decode_str decode_bytes decode_object decode_bool decode_int
    decode_float
decode_payload p tag r =
    if tag == wire_none
    then (ok none_value, r)
    else if tag == wire_bool
    then decode_bool r
    else if tag == wire_int
    then decode_int r
    else if tag == wire_big_int
    then decode_big_int r
    else if tag == wire_float
    then decode_float r
    else if tag == wire_complex
    then decode_complex r
    else if tag == wire_str
    then decode_str r
    else if tag == wire_bytes
    then decode_bytes r
    else if tag == wire_object
    then decode_object p r
    else (err (tag_error tag), r)

-- decodeNode
unfoldable pub decode_node : ℕ → Read (Result Value)
unfolding decode_payload
decode_node p r =
    let (tag, r') = u8 r in if r'.fail then (err node_error, r') else decode_payload p tag r'

continue_nodes : Result Value → Read (Result (List Value)) → Read (Result (List Value))
continue_nodes (err e) more r = (err e, r)
continue_nodes (ok v) more r = let (rest, r') = more r in ((do vs ← rest; ok (v ∷ vs)), r')

-- `for i := 0; i < count; i++`: decode a node, stop at the first error.
unfoldable pub decode_nodes : ℕ → ℕ → Read (Result (List Value))
unfolding continue_nodes
decode_nodes p zero r = (ok [], r)
decode_nodes p (suc n) r = let (v, r') = decode_node p r in continue_nodes v (decode_nodes p n) r'
