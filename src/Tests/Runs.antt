-- ===== src/Tests/Runs.antt =====
-- The theorems on callbacks, command lines and runs at concrete inputs.
use go_python.Wire.LittleEndian.{le_bytes}
use go_python.Prelude.{
  some, ◌≡◌, refl, Bytes, text, true, none, some, [], ◌∷◌, ◌++◌, pos, arith, map,
}
use go_python.Value.{
  Value, str_value, object_value, Error, errorf, exit_error, python_error, wrapped,
  closed as err_closed, ok, err, handle,
}
use go_python.Value.Kind.{
  kind, kind_list, kind_module, kind_tuple, kind_set, kind_frozen_set, kind_dict,
}
use go_python.Wire.Tags.{wire_ok, wire_raised}
use go_python.Wire.Node.{node, handle_node}
use go_python.Errors.{as_python_error}
use go_python.Bridge.{register, lookup_func, callback_answer}
use go_python.Bridge.Callback.{callback_answer-reraised}
use go_python.Bridge.Table.{IsTable, register_lem}
use go_python.Cli.{parse_args, dash_c, parsed, command_invocation, file_invocation}
use go_python.Cli.Parse.{parse_args-argv}
use go_python.Internal.Instance.{World}
use go_python.Internal.Ops
use go_python.Wire.LittleEndian.{le_bytes}
use go_python.Session.Evaluated.{Reply, evaluated, envelope, outcome_of, eval-Reply}
use go_python.Session.{
  eval, new_aggregate, new_list, new_tuple, new_set, new_frozen_set, new_dict, import, run_file,
  run_command,
}
use go_python.Session.Typed.{OfKind, constructor-kind}
use go_python.Session.Closed.{run-closed}
use go_python.Tests.Data.{
  an_object, a_handle, a_list, a_module, minus_two, guest, empty_guest, live_context, world,
  closed_world, identity_func, one_function, python_exception,
}

callback_answer-reraised_example :
    callback_answer 7 (err (wrapped (text "callback: ") (python_error python_exception)))
    ≡ wire_raised ∷ 1 ∷ handle_node a_handle
unfolding as_python_error
callback_answer-reraised_example =
    callback_answer-reraised 7 (wrapped (text "callback: ") (python_error python_exception))
      python_exception an_object refl refl (refl, refl)

register_lem_example :
    IsTable (register identity_func one_function).1
    × (lookup_func 2 one_function.funcs ≡ none)
    × (lookup_func 1 (register identity_func one_function).1.funcs ≡ some identity_func)
unfolding register lookup_func
register_lem_example =
    register_lem identity_func one_function 1 ((omega arith, omega arith), tt) (omega arith)

parse_args-argv_example :
    (parse_args (text "go-python" ∷ dash_c ∷ text "pass" ∷ [])
      ≡ parsed (command_invocation (text "pass") []))
    × (parse_args (text "go-python" ∷ (dash_c ++ text "pass") ∷ [])
        ≡ parsed (command_invocation (text "pass") []))
    × (parse_args (text "go-python" ∷ text "a.py" ∷ []) ≡ parsed (file_invocation (text "a.py") []))
unfolding text go_python.Prelude.has_prefix
parse_args-argv_example =
    parse_args-argv (text "go-python") (text "pass") (text "a.py") [] (λ h. cc) refl

abbrev list_answer : Bytes
list_answer = wire_ok ∷ node a_list

abbrev module_answer : Bytes
module_answer = wire_ok ∷ node a_module

new_list-runs :
    (new_list (guest list_answer) 7 live_context (minus_two ∷ []) (world list_answer)).0 ≡ ok a_list
unfolding new_list new_aggregate go_python.Wire.Encode.encode_list
    go_python.Wire.Encode.encode_elements go_python.Wire.Encode.encode_value
    go_python.Wire.Encode.encode_int go_python.Session.typed_node Ops.new_list_op
    go_python.Session.◌>>=◌ go_python.Session.return_result go_python.Session.answered
    go_python.Object.respond go_python.Internal.Instance.value_op
    go_python.Internal.Instance.guarded_call go_python.Internal.Instance.payload
    go_python.Internal.Proto.extract_error go_python.Internal.Proto.scan
    go_python.Internal.Proto.append_bytes go_python.Internal.Proto.append_varint
    go_python.Internal.Proto.append_varint_loop go_python.Internal.Instance.arm_interrupt
    go_python.Internal.Instance.disarm go_python.Internal.Proto.append_tag
    go_python.Internal.Proto.next go_python.Internal.Proto.read_bytes
    go_python.Internal.Proto.read_scalar_at_field go_python.Internal.Proto.or_zero
    go_python.Internal.Proto.only go_python.Internal.Proto.read_varint
    go_python.Internal.Proto.read_varint_loop go_python.Internal.Proto.skip text
    go_python.Value.Kind.as_type go_python.Value.Kind.has_type kind go_python.Value.Kind.object_kind
    go_python.Wire.Decode.decode_node go_python.Wire.Decode.decode_payload
    go_python.Wire.Decode.object_for go_python.Wire.Envelope.decode_envelope
    go_python.Wire.Envelope.decode_node_result go_python.Wire.LittleEndian.from_le
    go_python.Wire.LittleEndian.le_bytes go_python.Wire.Reader.bytes go_python.Wire.Reader.need
    go_python.Wire.Reader.word
new_list-runs = refl

import-runs :
    (import (guest module_answer) 7 live_context (text "sys") (world module_answer)).0 ≡ ok a_module
unfolding import Ops.import_op go_python.Session.◌>>=◌ go_python.Session.return_result
    go_python.Session.answered go_python.Object.respond go_python.Internal.Instance.value_op
    go_python.Internal.Instance.guarded_call go_python.Internal.Instance.payload
    go_python.Internal.Proto.extract_error go_python.Internal.Proto.scan
    go_python.Internal.Proto.append_bytes go_python.Internal.Proto.append_varint
    go_python.Internal.Proto.append_varint_loop go_python.Internal.Instance.arm_interrupt
    go_python.Internal.Instance.disarm go_python.Internal.Proto.append_tag
    go_python.Internal.Proto.next go_python.Internal.Proto.read_bytes
    go_python.Internal.Proto.read_scalar_at_field go_python.Internal.Proto.or_zero
    go_python.Internal.Proto.only go_python.Internal.Proto.read_varint
    go_python.Internal.Proto.read_varint_loop go_python.Internal.Proto.skip text
    go_python.Value.Kind.as_type go_python.Value.Kind.has_type kind go_python.Value.Kind.object_kind
    go_python.Wire.Decode.decode_node go_python.Wire.Decode.decode_payload
    go_python.Wire.Decode.object_for go_python.Wire.Envelope.decode_envelope
    go_python.Wire.Envelope.decode_node_result go_python.Wire.LittleEndian.from_le
    go_python.Wire.LittleEndian.le_bytes go_python.Wire.Reader.bytes go_python.Wire.Reader.need
    go_python.Wire.Reader.word
import-runs = refl

constructor-kind_example :
    (kind a_list ≡ some kind_list)
    × OfKind kind_tuple
        (new_tuple (guest list_answer) 7 live_context (minus_two ∷ []) (world list_answer)).0
    × OfKind kind_set
        (new_set (guest list_answer) 7 live_context (minus_two ∷ []) (world list_answer)).0
    × OfKind kind_frozen_set
        (new_frozen_set (guest list_answer) 7 live_context (minus_two ∷ []) (world list_answer)).0
    × OfKind kind_dict (new_dict (guest list_answer) 7 live_context [] (world list_answer)).0
constructor-kind_example =
    rw new_list-runs at
      (constructor-kind (guest list_answer) 7 live_context (minus_two ∷ []) [] (world list_answer))

run-closed_example :
    (run_file empty_guest 7 live_context (text ".") (text "a.py") [] closed_world
      ≡ (err err_closed, closed_world))
    × (run_command empty_guest 7 live_context (text "pass") [] closed_world
        ≡ (err err_closed, closed_world))
run-closed_example =
    run-closed empty_guest live_context closed_world refl refl 7 (text ".") (text "a.py")
      (text "pass") []

-- An integer, with some output.
abbrev a_reply : Reply
a_reply = evaluated minus_two (text "hi") []

eval-Reply_example :
    (eval (guest (envelope a_reply)) 7 live_context (text "-2") (world (envelope a_reply))).0
    ≡ outcome_of 7 live_context a_reply
unfolding text le_bytes
eval-Reply_example =
    eval-Reply (guest (envelope a_reply)) 7 live_context (text "-2") (world (envelope a_reply))
      a_reply refl refl (omega arith) (omega arith) (omega arith, omega arith, omega arith)
      (omega arith) (λ req store ws found. refl)
