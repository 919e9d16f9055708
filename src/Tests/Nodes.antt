-- ===== src/Tests/Nodes.antt =====
-- The theorems on values, nodes and envelopes at concrete inputs.
use go_python.Prelude.{
  ◌≡◌, ap, refl, Bytes, text, false, none, some, List, [], ◌∷◌, ◌++◌, pos, ◌↔◌, arith, map,
  if◌then◌else◌,
}
use go_python.Value.{
  Result, Value, nil, str_value, int_value, float_value, object_value, ok, python_error,
}
use go_python.Wire.Tags.{wire_ok, wire_raised, wire_int, wire_float}
use go_python.Wire.LittleEndian.{le_bytes}
use go_python.Wire.Encode.{encode_value, encode_list, DictItem}
use go_python.Wire.Decode.{decode_node}
use go_python.Wire.Envelope.{decode_node_result, decode_list_result, decode_empty_result}
use go_python.Wire.Reads.{at, Ahead-start}
use go_python.Wire.Reader.{NodeReader}
use go_python.Wire.Node.{echo, node, Owned, encode_value-ok_iff}
use go_python.Wire.RoundTrip.{decode_node-node, decode-encode}
use go_python.Wire.Lists.{decode_list_result-encode_list}
use go_python.Wire.Bounds.{Extends, decode_node-Extends}
use go_python.Wire.Raised.{raised_payload, received, decode_empty_result-raised}
use go_python.Wire.Truncated.{truncated_number}
use go_python.Wire.Encode.{Arg, kwarg, positional_arg}
use go_python.Wire.Decoded.{decode_node-Owned}
use go_python.Tests.Data.{an_object, minus_two, three, an_exception}

encode_value-ok_iff_example :
    (encode_value 7 (1 ∷ []) (object_value an_object) ≡ ok (1 ∷ node (object_value an_object))) ↔ (
      Owned 7 (object_value an_object)
      × ((1 ∷ node (object_value an_object)) ≡ (1 ∷ node (object_value an_object))))
encode_value-ok_iff_example =
    encode_value-ok_iff 7 (1 ∷ []) (object_value an_object) (1 ∷ node (object_value an_object))

decode-encode_example :
    (encode_value 7 (1 ∷ []) minus_two ≡ ok (1 ∷ node minus_two))
    × (decode_node 7 (at (1 ∷ (node minus_two ++ 2 ∷ [])) 1)
        ≡ (ok (echo 7 minus_two), at (1 ∷ (node minus_two ++ 2 ∷ [])) 10))
unfolding le_bytes
decode-encode_example = decode-encode 7 (1 ∷ []) minus_two (2 ∷ []) tt (omega arith, tt)

decode_list_result-encode_list_example :
    (e : Bytes) × (encode_list 7 three ≡ ok e)
    × (decode_list_result 7 none (wire_ok ∷ e) false ≡ ok (map (echo 7) three))
unfolding text
decode_list_result-encode_list_example =
    decode_list_result-encode_list 7 none false three (tt, (tt, ((refl, refl), tt)))
      ((omega arith, tt), (omega arith, ((omega arith, omega arith), tt))) (omega arith)

decode_node-Extends_example : Extends (at (3 ∷ 200 ∷ []) 0) (decode_node 7 (at (3 ∷ 200 ∷ []) 0)).1
decode_node-Extends_example = decode_node-Extends 7 (at (3 ∷ 200 ∷ []) 0)

decode_empty_result-raised_example :
    decode_empty_result 7 none (wire_raised ∷ raised_payload an_exception []) false
    ≡ (if false then none else some (python_error (received 7 an_exception)))
unfolding text
decode_empty_result-raised_example =
    decode_empty_result-raised 7 none false an_exception [] (record {
      type_fits = omega arith;
      message_fits = omega arith;
      traceback_fits = omega arith;
      value_fits = (omega arith, omega arith);
    })

truncated_number_example :
    (decode_node_result 7 none (wire_ok ∷ wire_int ∷ 255 ∷ []) false
      ≡ ok (int_value (record { i = pos 0; big = none })))
    × (decode_node_result 7 none (wire_ok ∷ wire_float ∷ 255 ∷ []) false ≡ ok (float_value 0))
truncated_number_example = truncated_number 7 none false (255 ∷ []) (omega arith)

abbrev one_item : List DictItem
one_item = record { key = str_value (text "k"); value = minus_two } ∷ []

decode_node-Owned_example : Owned 7 (echo 7 (object_value an_object))
decode_node-Owned_example =
    decode_node-Owned 7 (at ([] ++ (node (object_value an_object) ++ [])) 0)
      (echo 7 (object_value an_object))
      (ap (λ (m : Result Value × NodeReader). m.0)
        (decode_node-node 7 (object_value an_object) [] (omega arith, omega arith)
          (Ahead-start [] _)))

abbrev call_args : List Arg
call_args =
    positional_arg nil ∷ kwarg (text "sep") minus_two ∷ positional_arg (object_value an_object) ∷ []

abbrev call_values : List Value
call_values = nil ∷ object_value an_object ∷ []
