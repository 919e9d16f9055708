-- ===== src/Wire/Envelope.antt =====
-- Result envelopes: decodeEnvelope, decodeRaised and the decode…Result functions of wire.go.
-- `ctx_err` is ctx.Err(), `none` for nil.
use go_python.Prelude.{
  ℕ, ℤ, Bytes, text, Bool, true, false, not, Option, none, some, List, ◌==◌, if◌then◌else◌,
}
use go_python.Value.{
  Value, none_value, object_value, ObjectValue, PythonError, Result, ok, err, Error, errorf,
  python_error, exit_error, ◌>>=◌,
}
use go_python.Wire.Tags.{wire_ok, wire_raised, wire_exit}
use go_python.Wire.LittleEndian.{to_int32, to_int64}
use go_python.Wire.Reader.{NodeReader, new_reader, Read, u8, u32, u64, len_bytes}
use go_python.Wire.Decode.{decode_node, decode_nodes}

-- `if ov, ok := v.(ObjectValue); ok`
unfoldable pub as_object : Value → Option ObjectValue
as_object (object_value o) = some o
as_object _ = none

attach : PythonError → Result Value → Result PythonError
attach pe (err e) = err e
attach pe (ok v) = ok (record pe { value = as_object v })

abbrev pub raised_error : Error
raised_error = errorf (text "python: malformed raised envelope")

-- decodeRaised
unfoldable pub decode_raised : ℕ → Read (Result PythonError)
unfolding attach
decode_raised p r =
    let (type, r1) = len_bytes r in
    let (message, r2) = len_bytes r1 in
    let (traceback, r3) = len_bytes r2 in
    let node = decode_node p r3 in
    if r3.fail then (err raised_error, r3) else (
      attach (record { type = type; message = message; traceback = traceback; value = none })
          node.0,
      node.1,
    )

-- What a raised envelope becomes: the cancellation if the watchdog fired, else the exception.
unfoldable pub raised_as : Option Error → Bool → Result PythonError → Option Error
raised_as ctx_err interrupted (err e) = some e
raised_as ctx_err true (ok pe) = ctx_err
raised_as ctx_err false (ok pe) = some (python_error pe)

abbrev pub envelope_error : Error
envelope_error = errorf (text "python: malformed result envelope")

-- decodeEnvelope: `none` is a nil error.
unfoldable pub decode_envelope : ℕ → Option Error → Bool → Read (Option Error)
decode_envelope p ctx_err interrupted r =
    let (status, r') = u8 r in
    let (pe, r'') = decode_raised p r' in
    let (code, r''') = u32 r' in
    if status == wire_ok
    then (none, r')
    else if status == wire_raised
    then (raised_as ctx_err interrupted pe, r'')
    else if status == wire_exit
    then (some (exit_error (to_int32 code)), r''')
    else (some envelope_error, r')

-- The common shape: the envelope, then the payload of an ok one.
after : {A : Type 0} → Option Error × NodeReader → Read (Result A) → Result A
after (some e, r) payload = err e
after (none, r) payload = (payload r).0

-- decodeNodeResult
unfoldable pub decode_node_result : ℕ → Option Error → Bytes → Bool → Result Value
unfolding after
decode_node_result p ctx_err resp interrupted =
    after (decode_envelope p ctx_err interrupted (new_reader resp)) (decode_node p)

unfoldable pub list_payload : ℕ → Read (Result (List Value))
list_payload p r =
    let (count, r') = u32 r in
    let nodes = decode_nodes p count r' in
    if r'.fail then (err (errorf (text "python: malformed node list")), r') else nodes

-- decodeListResult
unfoldable pub decode_list_result : ℕ → Option Error → Bytes → Bool → Result (List Value)
unfolding after
decode_list_result p ctx_err resp interrupted =
    after (decode_envelope p ctx_err interrupted (new_reader resp)) (list_payload p)

unfoldable pub i64_payload : Read (Result ℤ)
i64_payload r =
    let (v, r') = u64 r in if r'.fail then (err envelope_error, r') else (ok (to_int64 v), r')

-- decodeI64Result
unfoldable pub decode_i64_result : ℕ → Option Error → Bytes → Bool → Result ℤ
unfolding after
decode_i64_result p ctx_err resp interrupted =
    after (decode_envelope p ctx_err interrupted (new_reader resp)) i64_payload

unfoldable pub bool_payload : Read (Result Bool)
bool_payload r =
    let (v, r') = u8 r in if r'.fail then (err envelope_error, r') else (ok (not (v == 0)), r')

-- decodeBoolResult
unfoldable pub decode_bool_result : ℕ → Option Error → Bytes → Bool → Result Bool
unfolding after
decode_bool_result p ctx_err resp interrupted =
    after (decode_envelope p ctx_err interrupted (new_reader resp)) bool_payload

unfoldable pub text_payload : Read (Result Bytes)
text_payload r =
    let (s, r') = len_bytes r in if r'.fail then (err envelope_error, r') else (ok s, r')

-- decodeTextResult
unfoldable pub decode_text_result : ℕ → Option Error → Bytes → Bool → Result Bytes
unfolding after
decode_text_result p ctx_err resp interrupted =
    after (decode_envelope p ctx_err interrupted (new_reader resp)) text_payload

-- decodeEmptyResult
unfoldable pub decode_empty_result : ℕ → Option Error → Bytes → Bool → Option Error
decode_empty_result p ctx_err resp interrupted =
    (decode_envelope p ctx_err interrupted (new_reader resp)).0

unfoldable pub exists_payload : ℕ → Read (Result (Value × Bool))
exists_payload p r =
    let (exists, r') = u8 r in
    let (v, r'') = decode_node p r' in ((do x ← v; ok (x, not (exists == 0))), r'')

-- decodeExistsNodeResult
unfoldable pub decode_exists_node_result : ℕ → Option Error → Bytes → Bool → Result (Value × Bool)
unfolding after
decode_exists_node_result p ctx_err resp interrupted =
    after (decode_envelope p ctx_err interrupted (new_reader resp)) (exists_payload p)

-- Result of python.go.
pub record EvalResult : Type 0 where
  pub value : Value
  pub error : Option Error
  pub stdout : Bytes
  pub stderr : Bytes

abbrev pub eval_error : Error
eval_error = errorf (text "python: malformed eval envelope")

-- The captured output that follows a result, an exception or an exit.
unfoldable pub captured : Value → Option Error → Read (Result EvalResult)
captured v e r =
    let (out, r1) = len_bytes r in
    let (errs, r2) = len_bytes r1 in
    if r2.fail
    then (err eval_error, r2)
    else (ok (record { value = v; error = e; stdout = out; stderr = errs }), r2)

eval_value : Result Value → Read (Result EvalResult)
eval_value (err e) r = (err e, r)
eval_value (ok v) r = captured v none r

-- The outcome of decodeEvalResult, a Result and an error, either of which may be nil: with a fired
-- watchdog it is the zero Result and ctx.Err().
pub data EvalOutcome : Type 0 where
  outcome : Result EvalResult → EvalOutcome
  interrupted_by : Option Error → EvalOutcome

eval_raised : Option Error → Bool → Result PythonError → NodeReader → EvalOutcome
eval_raised ctx_err interrupted (err e) r = outcome (err e)
eval_raised ctx_err true (ok pe) r = interrupted_by ctx_err
eval_raised ctx_err false (ok pe) r = outcome (captured none_value (some (python_error pe)) r).0

-- decodeEvalResult
unfoldable pub decode_eval_result : ℕ → Option Error → Bytes → Bool → EvalOutcome
unfolding eval_value eval_raised
decode_eval_result p ctx_err resp interrupted =
    let (status, r) = u8 (new_reader resp) in
    let (v, r1) = decode_node p r in
    let (pe, r2) = decode_raised p r in
    let (code, r3) = u32 r in
    if status == wire_ok
    then outcome (eval_value v r1).0
    else if status == wire_raised
    then eval_raised ctx_err interrupted pe r2
    else if status == wire_exit
    then outcome (captured none_value (some (exit_error (to_int32 code))) r3).0
    else outcome (err eval_error)
