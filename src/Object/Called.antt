-- ===== src/Object/Called.antt =====
-- Call from end to end: a call from Go of an object, as the guest takes it from the request.
use go_python.Prelude.{
  ℕ, ◌^◌, ◌<◌, ◌≡◌, refl, ap, sym, ◌∙◌, subst, Bytes, Bool, false, Option, none, some, List, [],
  ◌∷◌, ◌++◌, map, length, ◌&&◌, arith, append-nil,
}
use go_python.Value.{Error, Value, ObjectValue, handle, Result, ok, err}
use go_python.Wire.Tags.{wire_ok}
use go_python.Wire.Node.{node, echo, Fits}
use go_python.Wire.Reads.{Ahead, Ahead-start, Ahead-byte}
use go_python.Wire.RoundTrip.{decode_node-node}
use go_python.Wire.Lists.{AllFit, AllOwned, ok-envelope}
use go_python.Wire.Encode.{Arg, encode_call_args}
use go_python.Wire.Reader.{NodeReader}
use go_python.Wire.Envelope.{decode_node_result}
use go_python.Bridge.{Kwargs, decode_request}
use go_python.Bridge.Callback.{KwargsFit, entries}
use go_python.Internal.Proto.{
  append_bytes, append_uint64, read_bytes_at_field, read_number_at_field, read_scalar_at_field,
  only, read_varint, PbReader,
}
use go_python.Internal.Proto.Lengths.{length-append_uint64, length-append_bytes}
use go_python.Internal.Proto.Varint.{read_varint-ahead}
use go_python.Internal.Proto.Message.{Field, number, chunk, append_fields, AllFields}
use go_python.Internal.Proto.Scanned.{Reads}
use go_python.Internal.Proto.Chunks.{read_bytes_at_field-append_fields}
use go_python.Internal.Proto.Pointers.{scanned}
use go_python.Internal.Instance.{Guest, World, Context, drain_releases, append_buffer}
use go_python.Internal.MethodIds.{mid_call}
use go_python.Internal.Answered.{Answers, value_op-answer}
use go_python.Internal.Ops.{call_request}
use go_python.Internal.Ops
use go_python.Object.{respond, call_object, raw, encoded}
use go_python.Object.Arguments.{Split, KwargsOwned, decode_request-encode_call_args}

-- The fields of a call's request.
abbrev call_fields : ℕ → ℕ → Bytes → Bytes → List Field
call_fields h id args kwargs =
    number 1 h
    ∷ number 2 id
    ∷ chunk 3 args
    ∷ number 4 (length args)
    ∷ chunk 5 kwargs
    ∷ number 6 (length kwargs)
    ∷ []

call_request-fields :
    (h id : ℕ) (args kwargs : Bytes)
    → call_request h id args kwargs ≡ append_fields [] (call_fields h id args kwargs)
unfolding call_request append_buffer
call_request-fields h id args kwargs = refl

module _ (h id : ℕ) (args kwargs : Bytes) (small_h : h < 2 ^ 64) (small_id : id < 2 ^ 64)
    (short : length args < 2 ^ 61) (short' : length kwargs < 2 ^ 61) where
  call_fields-AllFields : AllFields (call_fields h id args kwargs)
  call_fields-AllFields = (
    (omega arith, small_h),
    (
      (omega arith, small_id),
      (
        (omega arith, omega (arith, short)),
        (
          (omega arith, omega (arith, short)),
          ((omega arith, omega (arith, short')), ((omega arith, omega (arith, short')), tt)),
        ),
      ),
    ),
  )

  length-call_fields : length (append_fields [] (call_fields h id args kwargs)) < 2 ^ 63
  length-call_fields =
      let m1 = append_uint64 [] 1 h in
      let m2 = append_uint64 m1 2 id in
      let m3 = append_bytes m2 3 args in
      let m4 = append_uint64 m3 4 (length args) in
      let m5 = append_bytes m4 5 kwargs in
      omega (
        arith,
        short,
        short',
        length-append_uint64 [] 1 h,
        length-append_uint64 m1 2 id,
        length-append_bytes m2 3 args,
        length-append_uint64 m3 4 (length args),
        length-append_bytes m4 5 kwargs,
        length-append_uint64 m5 6 (length kwargs),
      )

  args_read : read_bytes_at_field (call_request h id args kwargs) 3 ≡ some args
  unfolding call_request append_buffer
  args_read =
      read_bytes_at_field-append_fields 3 (call_fields h id args kwargs) call_fields-AllFields
        ((λ e. cc), ((λ e. cc), ((λ e. cc), ((λ e. cc), tt)))) length-call_fields

  kwargs_read : read_bytes_at_field (call_request h id args kwargs) 5 ≡ some kwargs
  unfolding call_request append_buffer
  kwargs_read =
      read_bytes_at_field-append_fields 5 (call_fields h id args kwargs) call_fields-AllFields
        ((λ e. cc), ((λ e. cc), ((λ e. cc), ((λ e. cc), tt)))) length-call_fields

  id-Reads : Reads (only (λ (r : PbReader). some (read_varint r)) 0) id (number 2 id)
  unfolding only
  id-Reads b k rest short h = rw (read_varint-ahead b k id rest small_id h.ahead) refl

  callable_read : read_number_at_field (call_request h id args kwargs) 2 ≡ some id
  unfolding read_scalar_at_field call_request append_buffer
  callable_read =
      scanned 2 id (only (λ (r : PbReader). some (read_varint r))) (number 2 id) refl id-Reads
        (chunk 3 args ∷ number 4 (length args) ∷ chunk 5 kwargs ∷ number 6 (length kwargs) ∷ [])
        (number 1 h ∷ []) call_fields-AllFields ((λ e. cc), tt) length-call_fields

node-result :
    (p : ℕ) (ctx_err : Option Error) (interrupted : Bool) (v : Value)
    → Fits v
    → decode_node_result p ctx_err (wire_ok ∷ node v) interrupted ≡ ok (echo p v)
unfolding decode_node_result
node-result p ctx_err interrupted v fits =
    let start : Ahead (wire_ok ∷ node v) 0 (wire_ok ∷ node v) = Ahead-start [] _ in
    let h =
      subst (λ (t : Bytes). Ahead (wire_ok ∷ node v) 1 t) (sym (append-nil (node v)))
        (Ahead-byte wire_ok (node v) start) in
    rw (ok-envelope p 0 ctx_err interrupted _ start)
      (ap (λ (x : Result Value × NodeReader). x.0) (decode_node-node p v [] fits h))

module _ (guest : Guest) where
  respond-first :
      {A : Type 0} (decode : Bytes → Bool → Result A) (r : (Result Bytes × Bool) × World guest)
      (resp : Bytes) (interrupted : Bool)
      → r.0 ≡ (ok resp, interrupted)
      → (respond guest decode r).0 ≡ decode resp interrupted
  unfolding respond
  respond-first decode r resp interrupted h =
      ap (λ (q : Result Bytes × Bool). (respond guest decode (q, r.1)).0) h

same_ok : {A : Type 0} (x y : A) → ◌≡◌ {A = Result A} (ok x) (ok y) → x ≡ y
same_ok x y h = ap (λ r. elim r [ ok z ↦ z | err e ↦ x ]) h

module _ (guest : Guest) (o : ObjectValue) (ctx : Context) (w : World guest)
    (f : List Value → Kwargs → Value) where
  -- The guest finds the object and the two argument lists in the request, applies the object to them as f
  -- does, and answers a message with the result's envelope.
  abbrev pub Applies : Type 0
  Applies =
      (req args kwargs : Bytes) (vals : List Value) (kws : Kwargs)
      → read_number_at_field req 2 ≡ some (handle o).id
      → read_bytes_at_field req 3 ≡ some args
      → read_bytes_at_field req 5 ≡ some kwargs
      → decode_request (handle o).owner (args ++ kwargs) ≡ ok (vals, kws)
      → Answers guest ctx mid_call req (wire_ok ∷ node (f vals kws)) (drain_releases guest w).state

  call_answer :
      (args kwargs : Bytes) (vals : List Value) (kws : Kwargs)
      → ctx.entry_error ≡ none
      → w.py.closed ≡ false
      → w.py.h < 2 ^ 64
      → (handle o).id < 2 ^ 64
      → length args < 2 ^ 61
      → length kwargs < 2 ^ 61
      → length (node (f vals kws)) < 2 ^ 61
      → decode_request (handle o).owner (args ++ kwargs) ≡ ok (vals, kws)
      → Applies
      → (Ops.call_op guest ctx (handle o).id args kwargs w).0
        ≡ (ok (wire_ok ∷ node (f vals kws)), ctx.cancellable && ctx.fires)
  unfolding Ops.call_op
  call_answer args kwargs vals kws live is_open sh si short short' size read applies =
      let req = call_request w.py.h (handle o).id args kwargs in
      value_op-answer guest ctx mid_call req (wire_ok ∷ node (f vals kws)) w live is_open
        (omega (arith, size))
        (applies req args kwargs vals kws
          (callable_read w.py.h (handle o).id args kwargs sh si short short')
          (args_read w.py.h (handle o).id args kwargs sh si short short')
          (kwargs_read w.py.h (handle o).id args kwargs sh si short short') read)

  -- Call, from end to end: a guest that finds the handle's object and the argument lists in the request,
  -- decodes them as the format says and answers with the result, makes Call return that result of just
  -- the arguments of the call: the positional ones in order and the keyword ones by name, however they were
  -- interleaved, a nil as None. The handle is not released, the instance is open and the context is not
  -- done at the entry, the handles are uint64s, the arguments may be sent and fit the format, as does the
  -- result, there are fewer than 2 ^ 32 of each kind, and the encodings have fewer than 2 ^ 61 bytes.
  pub call_object-Applies :
      (args : List Arg) (vals : List Value) (kwargs : Kwargs) (e : Bytes × Bytes)
      → (handle o).released ≡ false
      → Split args vals kwargs
      → AllOwned (handle o).owner vals
      → KwargsOwned (handle o).owner kwargs
      → length vals < 2 ^ 32
      → AllFit vals
      → length kwargs < 2 ^ 32
      → KwargsFit kwargs
      → ctx.entry_error ≡ none
      → w.py.closed ≡ false
      → w.py.h < 2 ^ 64
      → (handle o).id < 2 ^ 64
      → encode_call_args (handle o).owner args ≡ ok e
      → length e.0 < 2 ^ 61
      → length e.1 < 2 ^ 61
      → (let result = f (map (echo (handle o).owner) vals) (entries (handle o).owner kwargs []) in
          Fits result × (length (node result) < 2 ^ 61))
      → Applies
      → (call_object guest o ctx args w).0
        ≡ ok (
            echo
              (handle o).owner
              (f (map (echo (handle o).owner) vals) (entries (handle o).owner kwargs [])))
  unfolding call_object raw encoded
  call_object-Applies args vals kwargs e here s own kown nv fv nk fk live is_open sh si enc short
        short' (fits, size) applies =
      let p = (handle o).owner in
      let (e', enc', read') =
        decode_request-encode_call_args p args vals kwargs s own kown nv fv nk fk in
      let read : decode_request p (e.0 ++ e.1) ≡ ok (map (echo p) vals, entries p kwargs []) =
        subst
          (λ (x : Bytes × Bytes).
            decode_request p (x.0 ++ x.1) ≡ ok (map (echo p) vals, entries p kwargs []))
          (same_ok e' e (sym enc' ∙ enc)) read' in
      rw (here, enc)
        (respond-first guest (λ resp i. decode_node_result p ctx.late_error resp i)
            (Ops.call_op guest ctx (handle o).id e.0 e.1 w) _ _
            (call_answer e.0 e.1 _ _ live is_open sh si short short' size read applies)
          ∙ node-result p ctx.late_error (ctx.cancellable && ctx.fires) _ fits)
