-- ===== src/Session/Evaluated.antt =====
-- Eval from end to end: the request to the guest, its envelope and the outcome.
use go_python.Prelude.{
  ℕ, ◌^◌, ◌<◌, ◌≡◌, ap, ◌∙◌, Bytes, Bool, false, Option, none, some, [], ◌∷◌, ◌++◌, length,
  if◌then◌else◌, ◌&&◌, arith,
}
use go_python.Value.{Value, none_value, Result, ok, err, python_error}
use go_python.Wire.Tags.{wire_ok, wire_raised}
use go_python.Wire.Node.{node, echo, Fits}
use go_python.Wire.Envelope.{EvalOutcome, outcome, interrupted_by, decode_eval_result}
use go_python.Wire.Raised.{
  Raised, RaisedFits, raised_payload, received, output, eval-ok, eval-raised,
}
use go_python.Internal.Proto.{append_bytes, append_uint64, read_bytes_at_field}
use go_python.Internal.Proto.Message.{number, chunk}
use go_python.Internal.Proto.Chunks.{read_bytes_at_field-append_fields}
use go_python.Internal.Instance.{Words, Guest, World, Context, drain_releases}
use go_python.Internal.MethodIds.{mid_eval}
use go_python.Internal.Answered.{value_op-answer}
use go_python.Internal.Proto.Lengths.{length-append_uint64, length-append_bytes}
use go_python.Internal.Ops
use go_python.Session.{eval}

-- What the guest has evaluated the source to, with what it has written to stdout and stderr.
pub data Reply : Type 0 where
  evaluated : (v : Value) (out errs : Bytes) → Reply
  raised : (e : Raised) (out errs : Bytes) → Reply

abbrev pub ReplyFits : Reply → Type 0
ReplyFits (evaluated v out errs) = Fits v × (length out < 2 ^ 32) × (length errs < 2 ^ 32)
ReplyFits (raised e out errs) = RaisedFits e × (length out < 2 ^ 32) × (length errs < 2 ^ 32)

abbrev pub envelope : Reply → Bytes
envelope (evaluated v out errs) = wire_ok ∷ (node v ++ output out errs)
envelope (raised e out errs) = wire_raised ∷ raised_payload e (output out errs)

-- What Eval returns of it.
abbrev pub outcome_of : ℕ → Context → Reply → EvalOutcome
outcome_of p ctx (evaluated v out errs) =
    outcome (ok (record { value = echo p v; error = none; stdout = out; stderr = errs }))
outcome_of p ctx (raised e out errs) =
    if ctx.cancellable && ctx.fires
    then interrupted_by ctx.late_error
    else outcome (
        ok (record {
          value = none_value;
          error = some (python_error (received p e));
          stdout = out;
          stderr = errs;
        }))

-- The end of Eval.
abbrev pub eval_outcome : ℕ → Context → Result Bytes × Bool → EvalOutcome
eval_outcome p ctx r = elim r.0 [
  | err e ↦ outcome (err e)
  | ok resp ↦ decode_eval_result p ctx.late_error resp r.1
]

module _ (guest : Guest) (p : ℕ) (ctx : Context) (src : Bytes) (w : World guest) where
  -- The guest finds the source in the request, and answers a message with the envelope.
  abbrev pub Evaluates : Reply → Type 0
  Evaluates reply =
      (req : Bytes) (store : Option (Words → Words)) (ws : Words)
      → read_bytes_at_field req 2 ≡ some src
      → (guest.invoke (drain_releases guest w).state mid_eval req store ws).0
        ≡ ok (append_bytes [] 1 (envelope reply))

  decoded :
      (reply : Reply)
      → ReplyFits reply
      → decode_eval_result p ctx.late_error (envelope reply) (ctx.cancellable && ctx.fires)
        ≡ outcome_of p ctx reply
  decoded (evaluated v out errs) (fv, fo, fe) =
      eval-ok p ctx.late_error (ctx.cancellable && ctx.fires) v out errs fv fo fe
  decoded (raised e out errs) (fr, fo, fe) =
      eval-raised p ctx.late_error (ctx.cancellable && ctx.fires) e out errs fr fo fe

  source_read :
      w.py.h < 2 ^ 64
      → length src < 2 ^ 62
      → read_bytes_at_field (append_bytes (append_uint64 [] 1 w.py.h) 2 src) 2 ≡ some src
  source_read small short =
      read_bytes_at_field-append_fields 2 (number 1 w.py.h ∷ chunk 2 src ∷ [])
        ((omega arith, small), ((omega arith, omega (arith, short)), tt)) ((λ e. cc), tt)
        (omega (
          arith,
          short,
          length-append_uint64 [] 1 w.py.h,
          length-append_bytes (append_uint64 [] 1 w.py.h) 2 src,
        ))

  -- Eval, from end to end: a guest that finds the source in the request's field and evaluates it to a value
  -- or to an exception, whatever releases were sent before, makes Eval return just that value, or None with
  -- that exception, and what was written to stdout and stderr; an exception under a context that was
  -- canceled during the call is the context's error. The instance is open and the context is not done at the
  -- entry, the handle is a uint64, the source and the envelope have fewer than 2 ^ 62 bytes, and the value,
  -- the exception and the outputs fit the format.
  pub eval-Reply :
      (reply : Reply)
      → ctx.entry_error ≡ none
      → w.py.closed ≡ false
      → w.py.h < 2 ^ 64
      → length src < 2 ^ 62
      → ReplyFits reply
      → length (envelope reply) < 2 ^ 62
      → Evaluates reply
      → (eval guest p ctx src w).0 ≡ outcome_of p ctx reply
  unfolding eval Ops.eval_op
  eval-Reply reply live is_open small short fits size evaluates =
      let req = append_bytes (append_uint64 [] 1 w.py.h) 2 src in
      ap (λ (r : Result Bytes × Bool). eval_outcome p ctx r)
        (value_op-answer guest ctx mid_eval req (envelope reply) w live is_open size
          (λ store ws. evaluates req store ws (source_read small short)))
      ∙ decoded reply fits
