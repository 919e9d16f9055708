-- ===== src/Bridge/Callback.antt =====
-- What handleUserCallback answers to the guest.
use go_python.Prelude.{
  lt→ltb, ℕ, ◌+◌, ◌%◌, ◌^◌, ◌<◌, ◌≡◌, refl, ap, ◌∙◌, subst, Bytes, Option, some, List, [], ◌∷◌,
  ◌++◌, append_assoc, length, map, arith,
}
use go_python.Value.{Value, ObjectValue, handle, PythonError, Result, ok, err, Error, object_value}
use go_python.Errors.{as_python_error}
use go_python.Wire.Tags.{wire_ok, wire_raised}
use go_python.Wire.LittleEndian.{len_prefixed, le_bytes}
use go_python.Wire.Encode.{encode_value}
use go_python.Wire.Node.{echo, Fits, node, handle_node, Owned, encode_value-eq}
use go_python.Wire.Reads.{
  at, Ahead, Ahead-start, Ahead-step, Ahead-word, word-Ahead, len_bytes-Ahead, Ahead-len_bytes,
}
use go_python.Wire.RoundTrip.{decode_node-node}
use go_python.Wire.Lists.{nodes, AllFit, decode_nodes-nodes}
use go_python.Bridge.{
  keyword_part, GoFunc, Kwargs, Functions, safe_call, callback_raised, callback_answer,
  decode_request, request_counted, request_args, request_kwargs, decode_kwargs, lookup_func,
  handle_user_callback, raised_handle, call_decoded, answer_called, nil_dereference,
  returns_nil_error,
}

-- A response of the Python -> Go protocol: the returned value's node, a live exception to re-raise, or
-- the text of a RuntimeError.
pub data Response (p : ℕ) : Bytes → Type 0 where
  returned : (v : Value) → Owned p v → Response p (wire_ok ∷ node v)
  reraised :
      (o : ObjectValue)
      → Owned p (object_value o)
      → Response p (wire_raised ∷ 1 ∷ handle_node (handle o))
  runtime_error : (s : Bytes) → Response p (wire_raised ∷ 0 ∷ len_prefixed s)

-- What a callback of the function comes to: a response, or the panic that a nil *PythonError of the
-- function makes.
pub data CallbackReply (p : ℕ) (fn : Option GoFunc) : Result Bytes → Type 0 where
  responds : (b : Bytes) → Response p b → CallbackReply p fn (ok b)
  nil_error :
      (f : GoFunc) (args : List Value) (kwargs : Kwargs)
      → fn ≡ some f
      → f args kwargs ≡ returns_nil_error
      → CallbackReply p fn (err nil_dereference)

-- An error that carries a live exception of the instance, however it is wrapped, is answered by that
-- exception's own handle, so the guest re-raises the same object.
pub callback_answer-reraised :
    (p : ℕ) (e : Error) (pe : PythonError) (o : ObjectValue)
    → as_python_error e ≡ some pe
    → pe.value ≡ some o
    → Owned p (object_value o)
    → callback_answer p (err e) ≡ wire_raised ∷ 1 ∷ handle_node (handle o)
unfolding callback_answer callback_raised encode_value
callback_answer-reraised p e pe o a v own = rw (
  a,
  callback_raised,
  v,
  encode_value-eq p (wire_raised ∷ 1 ∷ []) (object_value o) own,
  raised_handle,
)

-- The keyword list of a request.
abbrev pub kwarg_nodes : Kwargs → Bytes
kwarg_nodes [] = []
kwarg_nodes ((name, v) ∷ rest) = len_prefixed name ++ (node v ++ kwarg_nodes rest)

abbrev pub KwargsFit : Kwargs → Type 0
KwargsFit [] = Unit {0}
KwargsFit ((name, v) ∷ rest) = (length name < 2 ^ 32) × (Fits v × KwargsFit rest)

-- The entries as the loop leaves them: the latest first, each value as its echo.
abbrev pub entries : ℕ → Kwargs → Kwargs → Kwargs
entries p [] acc = acc
entries p ((name, v) ∷ rest) acc = entries p rest ((name, echo p v) ∷ acc)

abbrev pub request : List Value → Kwargs → Bytes
request args kwargs =
    le_bytes 4 (length args % 2 ^ 32)
    ++ (nodes args ++ (le_bytes 4 (length kwargs % 2 ^ 32) ++ (kwarg_nodes kwargs ++ [])))

module _ (p : ℕ) {b : Bytes} where
  decode_kwargs-Ahead :
      (kwargs : Kwargs) (q : ℕ) (acc : Kwargs) (rest : Bytes)
      → KwargsFit kwargs
      → Ahead b q (kwarg_nodes kwargs ++ rest)
      → (decode_kwargs p (length kwargs) acc (at b q)).0 ≡ ok (entries p kwargs acc)
  unfolding decode_kwargs
  decode_kwargs-Ahead [] q acc rest fits h = refl
  decode_kwargs-Ahead ((name, v) ∷ kwargs) q acc rest fits h =
      let h1 : Ahead b q (len_prefixed name ++ (node v ++ (kwarg_nodes kwargs ++ rest))) =
        subst (Ahead b q)
          (append_assoc (len_prefixed name) _ rest
            ∙ ap (λ t. len_prefixed name ++ t) (append_assoc (node v) _ rest))
          h in
      let h2 = Ahead-len_bytes name _ fits.0 h1 in
      rw (len_bytes-Ahead name _ fits.0 h1, decode_node-node p v _ fits.1.0 h2)
        (decode_kwargs-Ahead kwargs (q + 4 + length name + length (node v)) ((name, echo p v) ∷ acc)
          rest fits.1.1 (Ahead-step (node v) _ h2))

  keyword_part-Ahead :
      (q : ℕ) (kwargs : Kwargs)
      → length kwargs < 2 ^ 32
      → KwargsFit kwargs
      → Ahead b q (le_bytes 4 (length kwargs % 2 ^ 32) ++ (kwarg_nodes kwargs ++ []))
      → (keyword_part p (at b q)).0 ≡ ok (entries p kwargs [])
  unfolding keyword_part
  keyword_part-Ahead q [] small fits h = rw (word-Ahead 4 0 [] (omega arith) h)
  keyword_part-Ahead q (kw ∷ kws) small fits h =
      let kwargs = kw ∷ kws in
      let e : length kwargs % 2 ^ 32 ≡ length kwargs = omega arith in
      let h' : Ahead b q (le_bytes 4 (length kwargs) ++ (kwarg_nodes kwargs ++ [])) =
        subst (λ n. Ahead b q (le_bytes 4 n ++ (kwarg_nodes kwargs ++ []))) e h in
      rw (word-Ahead 4 (length kwargs) _ small h', lt→ltb 0 (length kwargs) (omega arith))
        (decode_kwargs-Ahead kwargs (q + 4) [] [] fits (Ahead-word 4 (length kwargs) _ h'))

pub decode_request-request :
    (p : ℕ) (args : List Value) (kwargs : Kwargs)
    → length args < 2 ^ 32
    → AllFit args
    → length kwargs < 2 ^ 32
    → KwargsFit kwargs
    → decode_request p (request args kwargs) ≡ ok (map (echo p) args, entries p kwargs [])
unfolding decode_request
decode_request-request p args kwargs na fa nk fk =
    let kws = le_bytes 4 (length kwargs % 2 ^ 32) ++ (kwarg_nodes kwargs ++ []) in
    let e : length args % 2 ^ 32 ≡ length args = omega arith in
    let start : Ahead (request args kwargs) 0 (le_bytes 4 (length args) ++ (nodes args ++ kws)) =
      subst (λ n. Ahead (request args kwargs) 0 (le_bytes 4 n ++ (nodes args ++ kws))) e
        (Ahead-start [] _) in
    let h = Ahead-word 4 (length args) (nodes args ++ kws) start in
    ap (request_counted p) (word-Ahead 4 (length args) (nodes args ++ kws) na start)
    ∙ ap (request_args p) (decode_nodes-nodes p 4 args kws fa h)
    ∙ ap (request_kwargs (map (echo p) args)) (
        keyword_part-Ahead p (4 + length (nodes args)) kwargs nk fk (Ahead-step (nodes args) kws h))

-- A call from Python reaches the function that is bound under the id with its arguments in order and
-- its keyword arguments, and the answer is that of the function's own result, error or panic, unless its
-- error has a nil *PythonError.
pub handle_user_callback-request :
    (p : ℕ) (t : Functions) (id : ℕ) (fn : GoFunc) (args : List Value) (kwargs : Kwargs)
    (r : Result Value)
    → lookup_func id t.funcs ≡ some fn
    → safe_call fn (map (echo p) args) (entries p kwargs []) ≡ some r
    → length args < 2 ^ 32
    → AllFit args
    → length kwargs < 2 ^ 32
    → KwargsFit kwargs
    → handle_user_callback p t id (request args kwargs) ≡ ok (callback_answer p r)
unfolding handle_user_callback call_decoded answer_called
handle_user_callback-request p t id fn args kwargs r bound called na fa nk fk =
    rw (bound, handle_user_callback)
      (ap (call_decoded p fn) (decode_request-request p args kwargs na fa nk fk)
        ∙ ap (answer_called p) called)
