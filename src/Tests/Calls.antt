-- ===== src/Tests/Calls.antt =====
-- Call from end to end at a concrete input.
use go_python.Prelude.{true, ◌++◌, ◌≡◌, refl, Bytes, text, Option, some, List, [], ◌∷◌, arith}
use go_python.Value.{Value, none_value, bool_value, Result, ok, err}
use go_python.Wire.Tags.{wire_ok}
use go_python.Wire.Node.{node}
use go_python.Wire.Encode.{
  Arg, positional_arg, kwarg, encode_call_args, encode_list, encode_elements, positionals,
  encode_value, encode_keywords, keywords,
}
use go_python.Wire.LittleEndian.{append_u64, append_len_bytes, le_bytes, to_uint64}
use go_python.Bridge.{Kwargs, decode_request}
use go_python.Internal.Proto.{append_bytes, read_bytes_at_field}
use go_python.Internal.Instance.{Guest, World}
use go_python.Object.{call_object}
use go_python.Object.Arguments.{split_end, split_positional, split_keyword}
use go_python.Object.Called.{Applies, call_object-Applies}
use go_python.Tests.Data.{an_object, minus_two, open_python, live_context}

-- A guest whose objects give their first argument back.
abbrev first_arg : List Value → Kwargs → Value
first_arg [] kws = none_value
first_arg (v ∷ vals) kws = v

abbrev result_envelope : Result (List Value × Kwargs) → Bytes
result_envelope (ok (vals, kws)) = wire_ok ∷ node (first_arg vals kws)
result_envelope (err e) = []

abbrev answer_to : Option Bytes → Option Bytes → Bytes
answer_to (some args) (some kwargs) = result_envelope (decode_request 7 (args ++ kwargs))
answer_to args kwargs = []

abbrev applying : Guest
applying = record {
  State = Unit {0};
  invoke = λ s mid req store ws. (
    ok (append_bytes [] 1 (answer_to (read_bytes_at_field req 3) (read_bytes_at_field req 5))),
    s,
    ws,
  );
}

abbrev applying_world : World applying
applying_world = record { py = open_python; state = tt }

applying-Applies : Applies applying an_object live_context applying_world first_arg
applying-Applies req args kwargs vals kws callable a k read store ws = rw (a, k, read) refl

abbrev two_args : List Arg
two_args = positional_arg minus_two ∷ kwarg (text "k") (bool_value true) ∷ []

abbrev two_encoded : Bytes × Bytes
two_encoded = (
  1 ∷ 0 ∷ 0 ∷ 0 ∷ 2 ∷ 254 ∷ 255 ∷ 255 ∷ 255 ∷ 255 ∷ 255 ∷ 255 ∷ 255 ∷ [],
  1 ∷ 0 ∷ 0 ∷ 0 ∷ 1 ∷ 0 ∷ 0 ∷ 0 ∷ 107 ∷ 1 ∷ 1 ∷ [],
)

two_args-encoded : encode_call_args 7 two_args ≡ ok two_encoded
unfolding encode_call_args encode_list encode_elements positionals encode_value encode_keywords
    keywords append_u64 append_len_bytes le_bytes to_uint64 text
two_args-encoded = refl

call_object-Applies_example :
    (call_object applying an_object live_context two_args applying_world).0 ≡ ok minus_two
unfolding text le_bytes
call_object-Applies_example =
    call_object-Applies applying an_object live_context applying_world first_arg two_args
      (minus_two ∷ []) ((text "k", bool_value true) ∷ []) two_encoded refl
      (split_positional minus_two (split_keyword (text "k") (bool_value true) split_end)) (tt, tt)
      (tt, tt) (omega arith) (omega arith, tt) (omega arith) (omega arith, (tt, tt)) refl refl
      (omega arith) (omega arith) two_args-encoded (omega arith) (omega arith)
      (omega arith, omega arith) applying-Applies
