-- ===== src/Wire/Raised.antt =====
-- Envelopes as a guest writes them, and what the decoders of wire.go make of them: raised exceptions,
-- the watchdog's cancellation, and the captured output of an evaluation.
use go_python.Prelude.{
  ℕ, ◌+◌, ◌^◌, ◌<◌, ◌≡◌, ap, Bytes, Bool, true, false, Option, none, some, [], ◌∷◌, ◌++◌, length,
  if◌then◌else◌,
}
use go_python.Value.{Value, ok, Error, PythonError, python_error, none_value}
use go_python.Wire.Tags.{wire_ok, wire_raised}
use go_python.Wire.LittleEndian.{len_prefixed}
use go_python.Wire.Envelope.{
  raised_as, captured, decode_raised, decode_envelope, decode_empty_result, decode_eval_result,
  as_object, outcome, interrupted_by,
}
use go_python.Wire.Node.{echo, Fits, node}
use go_python.Wire.Reads.{
  at, Ahead, Ahead-step, Ahead-start, Ahead-byte, byte-Ahead, len_bytes-Ahead, Ahead-len_bytes,
}
use go_python.Wire.RoundTrip.{decode_node-node}

-- What the guest sends of an exception: its type, its message, its traceback and the instance.
pub record Raised : Type 0 where
  pub type : Bytes
  pub message : Bytes
  pub traceback : Bytes
  pub instance_node : Value

pub record RaisedFits (e : Raised) : Type 0 where
  pub type_fits : length e.type < 2 ^ 32
  pub message_fits : length e.message < 2 ^ 32
  pub traceback_fits : length e.traceback < 2 ^ 32
  pub value_fits : Fits e.instance_node

abbrev pub raised_payload : Raised → Bytes → Bytes
raised_payload e rest =
    len_prefixed e.type
    ++ (len_prefixed e.message ++ (len_prefixed e.traceback ++ (node e.instance_node ++ rest)))

-- The exception that Go sees.
abbrev pub received : ℕ → Raised → PythonError
received p e = record {
  type = e.type;
  message = e.message;
  traceback = e.traceback;
  value = as_object (echo p e.instance_node);
}

abbrev after_raised : ℕ → Raised → ℕ
after_raised q e =
    q
    + 4
    + length e.type
    + 4
    + length e.message
    + 4
    + length e.traceback
    + length (node e.instance_node)

module _ (p : ℕ) {b : Bytes} (q : ℕ) (e : Raised) (rest : Bytes) (fits : RaisedFits e)
    (h : Ahead b q (raised_payload e rest)) where
  h1 :
      Ahead b
        (q + 4 + length e.type)
        (len_prefixed e.message ++ (len_prefixed e.traceback ++ (node e.instance_node ++ rest)))
  h1 = Ahead-len_bytes e.type _ fits.type_fits h

  h2 :
      Ahead b
        (q + 4 + length e.type + 4 + length e.message)
        (len_prefixed e.traceback ++ (node e.instance_node ++ rest))
  h2 = Ahead-len_bytes e.message _ fits.message_fits h1

  h3 :
      Ahead b
        (q + 4 + length e.type + 4 + length e.message + 4 + length e.traceback)
        (node e.instance_node ++ rest)
  h3 = Ahead-len_bytes e.traceback _ fits.traceback_fits h2

  decode_raised-Ahead : decode_raised p (at b q) ≡ (ok (received p e), at b (after_raised q e))
  unfolding decode_raised
  decode_raised-Ahead = rw (
    len_bytes-Ahead e.type _ fits.type_fits h,
    len_bytes-Ahead e.message _ fits.message_fits h1,
    len_bytes-Ahead e.traceback _ fits.traceback_fits h2,
    decode_node-node p e.instance_node rest fits.value_fits h3,
  )

  Ahead-raised : Ahead b (after_raised q e) rest
  Ahead-raised = Ahead-step (node e.instance_node) rest h3

raised-envelope :
    (p : ℕ) {b : Bytes} (q : ℕ) (ctx_err : Option Error) (interrupted : Bool) (e : Raised)
    (rest : Bytes)
    → RaisedFits e
    → Ahead b q (wire_raised ∷ raised_payload e rest)
    → (decode_envelope p ctx_err interrupted (at b q)).0
      ≡ raised_as ctx_err interrupted (ok (received p e))
unfolding decode_envelope
raised-envelope p q ctx_err interrupted e rest fits h = rw (
  byte-Ahead wire_raised _ h,
  decode_raised-Ahead p (q + 1) e rest fits (Ahead-byte wire_raised _ h),
)

-- A raised envelope is the error that an operation returns: the exception with its type, message,
-- traceback and live instance, or, if the watchdog fired during the call, ctx.Err().
pub decode_empty_result-raised :
    (p : ℕ) (ctx_err : Option Error) (interrupted : Bool) (e : Raised) (rest : Bytes)
    → RaisedFits e
    → decode_empty_result p ctx_err (wire_raised ∷ raised_payload e rest) interrupted
      ≡ (if interrupted then ctx_err else some (python_error (received p e)))
unfolding decode_empty_result raised_as
decode_empty_result-raised p ctx_err true e rest fits =
    raised-envelope p 0 ctx_err true e rest fits (Ahead-start [] _)
decode_empty_result-raised p ctx_err false e rest fits =
    raised-envelope p 0 ctx_err false e rest fits (Ahead-start [] _)

abbrev pub output : Bytes → Bytes → Bytes
output out errs = len_prefixed out ++ (len_prefixed errs ++ [])

module _ (p : ℕ) {b : Bytes} (q : ℕ) (out errs : Bytes) (fo : length out < 2 ^ 32)
    (fe : length errs < 2 ^ 32) where
  captured-Ahead :
      (v : Value) (e : Option Error)
      → Ahead b q (output out errs)
      → (captured v e (at b q)).0
        ≡ ok (record { value = v; error = e; stdout = out; stderr = errs })
  unfolding captured
  captured-Ahead v e h =
      rw (len_bytes-Ahead out _ fo h, len_bytes-Ahead errs [] fe (Ahead-len_bytes out _ fo h))

pub eval-ok :
    (p : ℕ) (ctx_err : Option Error) (interrupted : Bool) (v : Value) (out errs : Bytes)
    → Fits v
    → length out < 2 ^ 32
    → length errs < 2 ^ 32
    → decode_eval_result p ctx_err (wire_ok ∷ (node v ++ output out errs)) interrupted
      ≡ outcome (ok (record { value = echo p v; error = none; stdout = out; stderr = errs }))
unfolding decode_eval_result
eval-ok p ctx_err interrupted v out errs fv fo fe =
    let start : Ahead (wire_ok ∷ (node v ++ output out errs)) 0
        (wire_ok ∷ (node v ++ output out errs)) =
      Ahead-start [] _ in
    let h = Ahead-byte wire_ok (node v ++ output out errs) start in
    rw (byte-Ahead wire_ok _ start, decode_node-node p v _ fv h)
      (ap outcome (
        captured-Ahead p (1 + length (node v)) out errs fo fe (echo p v) none
          (Ahead-step (node v) _ h)))

pub eval-raised :
    (p : ℕ) (ctx_err : Option Error) (interrupted : Bool) (e : Raised) (out errs : Bytes)
    → RaisedFits e
    → length out < 2 ^ 32
    → length errs < 2 ^ 32
    → decode_eval_result p ctx_err (wire_raised ∷ raised_payload e (output out errs)) interrupted
      ≡ (if interrupted
          then interrupted_by ctx_err
          else outcome (
              ok (record {
                value = none_value;
                error = some (python_error (received p e));
                stdout = out;
                stderr = errs;
              })))
unfolding decode_eval_result
eval-raised p ctx_err true e out errs fr fo fe =
    let start = Ahead-start [] (wire_raised ∷ raised_payload e (output out errs)) in
    rw (
      byte-Ahead wire_raised _ start,
      decode_raised-Ahead p 1 e _ fr (Ahead-byte wire_raised _ start),
    )
eval-raised p ctx_err false e out errs fr fo fe =
    let start = Ahead-start [] (wire_raised ∷ raised_payload e (output out errs)) in
    let h = Ahead-byte wire_raised _ start in
    rw (byte-Ahead wire_raised _ start, decode_raised-Ahead p 1 e _ fr h)
      (ap outcome (
        captured-Ahead p (after_raised 1 e) out errs fo fe none_value
          (some (python_error (received p e))) (Ahead-raised p 1 e _ fr h)))

-- An evaluation that succeeds gives its value with the captured output; one that raises gives None,
-- the exception and the captured output, or only ctx.Err() if the watchdog fired.
pub decode_eval_result-cases :
    (p : ℕ) (ctx_err : Option Error) (interrupted : Bool) (v : Value) (e : Raised)
    (out errs : Bytes)
    → Fits v
    → RaisedFits e
    → length out < 2 ^ 32
    → length errs < 2 ^ 32
    → (decode_eval_result p ctx_err (wire_ok ∷ (node v ++ output out errs)) interrupted
        ≡ outcome (ok (record { value = echo p v; error = none; stdout = out; stderr = errs })))
      × (decode_eval_result p ctx_err (wire_raised ∷ raised_payload e (output out errs)) interrupted
          ≡ (if interrupted
              then interrupted_by ctx_err
              else outcome (
                  ok (record {
                    value = none_value;
                    error = some (python_error (received p e));
                    stdout = out;
                    stderr = errs;
                  }))))
decode_eval_result-cases p ctx_err interrupted v e out errs fv fr fo fe = (
  eval-ok p ctx_err interrupted v out errs fv fo fe,
  eval-raised p ctx_err interrupted e out errs fr fo fe,
)
