-- ===== src/Session.antt =====
-- The public instance of python.go, with NewFunction and Bind of bridge.go and runCommand of cli/cli.go:
-- sequences of bridge operations on one instance. `p` is the identity of the instance.
pub mod Typed
pub mod Bound
pub mod Evaluated
pub mod InMemory
pub mod Closed
use go_python.Prelude.{
  ℕ, zero, suc, ◌+◌, ◌≡◌, refl, ℤ, pos, Bytes, text, Bool, true, false, Option, none, some, List,
  [], ◌∷◌, ◌++◌, map, if◌then◌else◌,
}
use mathlib.Core.List.{reverse}
use go_python.Value.{
  Value, nil, none_value, str_value, object_value, ObjectValue, Result, ok, err, Error, errorf,
  wrapped, map_error,
}
use go_python.Value.Kind.{
  Target, concrete, as_type, kind_list, kind_tuple, kind_set, kind_frozen_set, kind_dict,
  kind_function, kind_module,
}
use go_python.Value.Convert.{value_of, string, int}
use go_python.Wire.Encode.{
  encode_list, encode_dict_items, DictItem, Arg, positional_arg, make_kwarg,
}
use go_python.Wire.Envelope.{decode_node_result, decode_eval_result, EvalOutcome, outcome}
use go_python.Internal.Instance.{close, Guest, World, Context, ensure_dispatcher}
use go_python.Internal.Ops
use go_python.Object

module _ (guest : Guest) where
  -- What an operation does: a result, and the world afterwards.
  abbrev pub Act : Type 0 → Type 0
  Act A = World guest → Result A × World guest

  unfoldable pub return_result : {A : Type 0} → Result A → Act A
  return_result r w = (r, w)

  unfoldable pub continue : {A B : Type 0} → Result A → (A → Act B) → Act B
  continue (ok a) f w = f a w
  continue (err e) f w = (err e, w)

  infixl 5 ◌>>=◌ ◌>>◌
  -- `if err != nil { return err }` after each step.
  unfoldable pub ◌>>=◌ : {A B : Type 0} → Act A → (A → Act B) → Act B
  unfolding continue
  ◌>>=◌ m f w = let (r, w') = m w in continue r f w'

  abbrev pub ◌>>◌ : {A B : Type 0} → Act A → Act B → Act B
  m >> k = m >>= λ _. k

  unfoldable pub mapped : {A : Type 0} → (Error → Error) → Act A → Act A
  mapped f m w = let (r, w') = m w in (map_error f r, w')

  -- Send an operation and decode the node that it answers with.
  unfoldable pub answered :
      ℕ → Context → (World guest → (Result Bytes × Bool) × World guest) → Act Value
  answered p ctx op w = Object.respond guest (decode_node_result p ctx.late_error) (op w)

  -- The tail of the constructors and of Import: decode a node, and check its type.
  unfoldable pub typed_node :
      ℕ → Context → ℕ → (World guest → (Result Bytes × Bool) × World guest) → Act Value
  typed_node p ctx k op = do v ← answered p ctx op; return_result (as_type (concrete k) v)

  -- Eval, with the transport's error apart from what the envelope says.
  unfoldable pub eval : ℕ → Context → Bytes → World guest → EvalOutcome × World guest
  eval p ctx src w =
      let (r, w') = Ops.eval_op guest ctx src w in
      (
        elim r.0 [
          | err e ↦ outcome (err e)
          | ok resp ↦ decode_eval_result p ctx.late_error resp r.1
        ],
        w',
      )

  import_error : Bytes → Error → Error
  import_error name = wrapped (text "python: import " ++ (name ++ text ": "))

  -- Import. Only the type check's error is wrapped.
  unfoldable pub import : ℕ → Context → Bytes → Act Value
  unfolding import_error
  import p ctx name = do
    v ← answered p ctx (Ops.import_op guest ctx name)
    return_result (map_error (import_error name) (as_type (concrete kind_module) v))

  -- newAggregate
  unfoldable pub new_aggregate :
      ℕ
      → Context
      → ℕ
      → (Context → Bytes → World guest → (Result Bytes × Bool) × World guest)
      → List Value
      → Act Value
  new_aggregate p ctx k op elems = do
    enc ← return_result (encode_list p elems)
    typed_node p ctx k (op ctx enc)

  unfoldable pub new_list : ℕ → Context → List Value → Act Value
  new_list p ctx = new_aggregate p ctx kind_list (Ops.new_list_op guest)

  unfoldable pub new_tuple : ℕ → Context → List Value → Act Value
  new_tuple p ctx = new_aggregate p ctx kind_tuple (Ops.new_tuple_op guest)

  unfoldable pub new_set : ℕ → Context → List Value → Act Value
  new_set p ctx = new_aggregate p ctx kind_set (Ops.new_set_op guest)

  unfoldable pub new_frozen_set : ℕ → Context → List Value → Act Value
  new_frozen_set p ctx = new_aggregate p ctx kind_frozen_set (Ops.new_frozen_set_op guest)

  unfoldable pub new_dict : ℕ → Context → List DictItem → Act Value
  new_dict p ctx items = do
    enc ← return_result (encode_dict_items p items)
    typed_node p ctx kind_dict (Ops.new_dict_op guest ctx enc)

  -- The operations of a handle on a value that a type check has let through.
  unfoldable pub on_object : {A : Type 0} → Value → (ObjectValue → Act A) → Act A
  on_object (object_value o) f = f o
  on_object v f = return_result (err (errorf (text "nil pointer dereference")))

  call_named : Context → Bytes → List Arg → Value → Act Value
  call_named ctx name args v = on_object v (λ o. Object.call_method guest o ctx name args)

  -- The loop of AddPath, from the last directory to the first.
  insert_paths : Context → Value → List Bytes → Act (Unit {0})
  unfolding call_named
  insert_paths ctx path [] = return_result (ok tt)
  insert_paths ctx path (dir ∷ dirs) =
      mapped (wrapped (text "python: extend sys.path: ")) (
        call_named ctx (text "insert")
          (positional_arg (value_of (int (pos 0))) ∷ positional_arg (value_of (string dir)) ∷ [])
          path)
      >> insert_paths ctx path dirs

  -- AddPath
  unfoldable pub add_path : ℕ → Context → List Bytes → Act (Unit {0})
  unfolding insert_paths
  add_path p ctx [] = return_result (ok tt)
  add_path p ctx (dir ∷ dirs) = do
    sys ← import p ctx (text "sys")
    v ← on_object sys (λ o. Object.attr guest o ctx (text "path"))
    path ←
        return_result
          (map_error (wrapped (text "python: sys.path: ")) (as_type (concrete kind_list) v))
    insert_paths ctx path (reverse (dir ∷ dirs))

  flush_stream : Context → Value → Act (Unit {0})
  flush_stream ctx (object_value o) =
      Object.call_method guest o ctx (text "flush") [] >> return_result (ok tt)
  flush_stream ctx v = return_result (ok tt)

  -- FlushStdio: a stream that is no object is passed over.
  unfoldable pub flush_stdio : ℕ → Context → Act (Unit {0})
  unfolding flush_stream
  flush_stdio p ctx = do
    sys ← import p ctx (text "sys")
    out ← on_object sys (λ o. Object.attr guest o ctx (text "stdout"))
    flush_stream ctx out
    errs ← on_object sys (λ o. Object.attr guest o ctx (text "stderr"))
    flush_stream ctx errs

  -- The error of the run comes before that of the flush.
  run_outcome : Result Value → Result (Unit {0}) → Result (Unit {0})
  run_outcome (err e) flushed = err e
  run_outcome (ok v) flushed = flushed

  -- `_, runErr := …; if err := p.FlushStdio(ctx); err != nil && runErr == nil { return err }; return runErr`
  unfoldable pub run_then_flush : ℕ → Context → Act Value → Act (Unit {0})
  unfolding run_outcome
  run_then_flush p ctx run w =
      let (r, w1) = run w in let (flushed, w2) = flush_stdio p ctx w1 in (run_outcome r flushed, w2)

  set_argv : ℕ → Context → Bytes → List Bytes → Act (Unit {0})
  set_argv p ctx first args = do
    sys ← import p ctx (text "sys")
    argv ← new_list p ctx (value_of (string first) ∷ map (λ a. value_of (string a)) args)
    on_object sys (λ o. Object.set_attr guest o ctx (text "argv") argv)

  -- RunFile; `dir` is filepath.Dir(path).
  unfoldable pub run_file : ℕ → Context → Bytes → Bytes → List Bytes → Act (Unit {0})
  unfolding set_argv call_named
  run_file p ctx dir path args = do
    add_path p ctx (dir ∷ [])
    set_argv p ctx path args
    runpy ← import p ctx (text "runpy")
    run_then_flush p ctx (
        call_named ctx (text "run_path")
          (positional_arg (value_of (string path))
            ∷ make_kwarg (text "run_name") (value_of (string (text "__main__")))
            ∷ [])
          runpy)

  -- runCommand
  unfoldable pub run_command : ℕ → Context → Bytes → List Bytes → Act (Unit {0})
  unfolding set_argv call_named
  run_command p ctx command args = do
    set_argv p ctx (text "-c") args
    main ← import p ctx (text "__main__")
    globals ← on_object main (λ o. Object.attr guest o ctx (text "__dict__"))
    builtins ← import p ctx (text "builtins")
    code ←
        call_named ctx (text "compile")
          (positional_arg (value_of (string command))
            ∷ positional_arg (value_of (string (text "<string>")))
            ∷ positional_arg (value_of (string (text "exec")))
            ∷ [])
          builtins
    run_then_flush p ctx
        (call_named ctx (text "exec") (positional_arg code ∷ positional_arg globals ∷ []) builtins)

  -- Close
  unfoldable pub close_instance : World guest → Option Error × World guest
  close_instance w = close guest w
