-- ===== src/Internal/Exports/Agree.antt =====
-- The operations that instance.go writes by hand against the generated wrappers of the same exports.
use go_python.Prelude.{
  ℤ, ℕ, List, ◌≡◌, refl, ap, sym, ◌∙◌, Bytes, Bool, false, none, some, [], Option-cases, inl, inr,
  length,
}
use go_python.Value.{Result, ok, err}
use go_python.Internal.Proto.{extract_error}
use go_python.Internal.Drain.{value_op-live}
use go_python.Internal.Instance.{
  call, Guest, World, Context, value_op, guarded_call, drain_releases, payload, arm_interrupt,
  disarm, append_buffer,
}
use go_python.Internal.Ops
use go_python.Internal.Exports
use go_python.Internal.Exports.Constructors

payload-error :
    (guest : Guest) (r : Result Bytes)
    → payload guest r ≡ Exports.string_result (Exports.method_error r)
unfolding payload Exports.string_result Exports.method_error
payload-error guest (err e) = refl
payload-error guest (ok out) = elim (Option-cases (extract_error out)) [
  | inl n ↦ rw (payload, Exports.method_error, n)
  | inr (none, s) ↦ rw (payload, Exports.method_error, s)
  | inr (some e, s) ↦ rw (payload, Exports.method_error, s)
]

-- An answer that no watchdog interrupted.
abbrev pub plain : {W : Type 0} → Result Bytes × W → (Result Bytes × Bool) × W
plain (r, w) = ((r, false), w)

module _ (guest : Guest) (ctx : Context) (w : World guest) where
  abbrev pub Agree :
      (World guest → (Result Bytes × Bool) × World guest)
      → (World guest → Result Bytes × World guest)
      → Type 0
  Agree op export = op w ≡ plain (export w)

  -- Each operation of the instance with the wrapper of its export.
  abbrev pub AllAgree : (obj cls : ℕ) (id : ℤ) (src name key val args kwargs : Bytes) → Type 0
  AllAgree obj cls id src name key val args kwargs =
      let h = w.py.h in
      Agree (Ops.eval_op guest ctx src) (Exports.py_eval guest h src)
      × Agree (Ops.import_op guest ctx name) (Exports.py_import guest h name (length name))
      × Agree (Ops.call_op guest ctx obj args kwargs)
          (Exports.py_call guest h obj args (length args) kwargs (length kwargs))
      × Agree (Ops.call_method_op guest ctx obj name args kwargs) (
          Exports.py_call_method guest h obj name (length name) args (length args) kwargs
            (length kwargs))
      × Agree (Ops.get_attr_op guest ctx obj name)
          (Exports.py_getattr guest h obj name (length name))
      × Agree (Ops.set_attr_op guest ctx obj name val)
          (Exports.py_setattr guest h obj name (length name) val (length val))
      × Agree (Ops.get_item_op guest ctx obj key) (Exports.py_getitem guest h obj key (length key))
      × Agree (Ops.set_item_op guest ctx obj key val)
          (Exports.py_setitem guest h obj key (length key) val (length val))
      × Agree (Ops.del_item_op guest ctx obj key) (Exports.py_delitem guest h obj key (length key))
      × Agree (Ops.len_op guest ctx obj) (Exports.py_len guest h obj)
      × Agree (Ops.str_op guest ctx obj) (Exports.py_str guest h obj)
      × Agree (Ops.repr_op guest ctx obj) (Exports.py_repr guest h obj)
      × Agree (Ops.iter_op guest ctx obj) (Exports.py_iter guest h obj)
      × Agree (Ops.dict_keys_op guest ctx obj) (Exports.py_dict_keys guest h obj)
      × Agree (Ops.dict_values_op guest ctx obj) (Exports.py_dict_values guest h obj)
      × Agree (Ops.dict_items_op guest ctx obj) (Exports.py_dict_items guest h obj)
      × Agree (Ops.contains_op guest ctx obj key) (Exports.py_contains guest h obj key (length key))
      × Agree (Ops.dict_get_op guest ctx obj key) (Exports.py_dict_get guest h obj key (length key))
      × Agree (Ops.list_append_op guest ctx obj val)
          (Exports.py_list_append guest h obj val (length val))
      × Agree (Ops.set_add_op guest ctx obj val) (Exports.py_set_add guest h obj val (length val))
      × Agree (Ops.set_discard_op guest ctx obj val)
          (Exports.py_set_discard guest h obj val (length val))
      × Agree (Ops.is_instance_op guest ctx obj cls) (Exports.py_isinstance guest h obj cls)
      × Agree (Ops.new_list_op guest ctx args) (Constructors.py_new_list guest h args (length args))
      × Agree (Ops.new_tuple_op guest ctx args)
          (Constructors.py_new_tuple guest h args (length args))
      × Agree (Ops.new_set_op guest ctx args) (Constructors.py_new_set guest h args (length args))
      × Agree (Ops.new_frozen_set_op guest ctx args)
          (Constructors.py_new_frozenset guest h args (length args))
      × Agree (Ops.new_dict_op guest ctx args) (Constructors.py_new_dict guest h args (length args))
      × Agree (Ops.new_function_op guest ctx name id)
          (Constructors.py_new_function guest h name (length name) id)

  module _ (steady : ctx.cancellable ≡ false) (live : ctx.entry_error ≡ none)
      (is_open : w.py.closed ≡ false) (idle : w.py.pending_rel ≡ []) where
    guarded_call-plain :
        (mid : ℕ) (req : Bytes)
        → guarded_call guest ctx mid req w
          ≡ plain (payload guest (call guest mid req w).0, (call guest mid req w).1)
    unfolding guarded_call call arm_interrupt disarm
    guarded_call-plain mid req = simp (guarded_call, arm_interrupt, disarm, steady)

    drain_releases-idle : drain_releases guest w ≡ w
    unfolding drain_releases
    drain_releases-idle =
        let queued : List ℕ → World guest =
          λ l. record w { py = record w.py { pending_rel = l } } in
        ap (λ l. drain_releases guest (queued l)) idle ∙ ap queued (sym idle)

    value_op-export :
        (mid : ℕ) (req : Bytes)
        → Agree
            (value_op guest ctx mid req)
            (Exports.read_result guest Exports.string_result (Exports.invoke_method guest mid req))
    unfolding Exports.read_result Exports.invoke_method
    value_op-export mid req =
        value_op-live guest ctx mid req w live is_open
        ∙ ap (guarded_call guest ctx mid req) drain_releases-idle
        ∙ guarded_call-plain mid req
        ∙ ap (λ r. plain (r, (call guest mid req w).1))
            (payload-error guest (call guest mid req w).0)

    -- The hand-written operations and the generated wrappers of the exports agree: under a context that
    -- is never canceled, on an open instance that has no release queued, each operation enters the guest
    -- by the export and with the request of the wrapper that was generated for it, and answers with the
    -- same string or error, a string argument going with its own length.
    pub ops_agree :
        (obj cls : ℕ) (id : ℤ) (src name key val args kwargs : Bytes)
        → AllAgree obj cls id src name key val args kwargs
    unfolding Exports.py_call Exports.py_call_method Exports.py_contains Exports.py_delitem
        Exports.py_dict_get Exports.py_dict_items Exports.py_dict_keys Exports.py_dict_values
        Exports.py_eval Exports.py_getattr Exports.py_getitem Exports.py_import
        Exports.py_isinstance Exports.py_iter Exports.py_len Exports.py_list_append
        Constructors.py_new_dict Constructors.py_new_frozenset Constructors.py_new_function
        Constructors.py_new_list Constructors.py_new_set Constructors.py_new_tuple Exports.py_repr
        Exports.py_set_add Exports.py_set_discard Exports.py_setattr Exports.py_setitem
        Exports.py_str Ops.call_method_op Ops.call_op Ops.contains_op Ops.del_item_op
        Ops.dict_get_op Ops.dict_items_op Ops.dict_keys_op Ops.dict_values_op Ops.eval_op
        Ops.get_attr_op Ops.get_item_op Ops.import_op Ops.is_instance_op Ops.iter_op Ops.len_op
        Ops.list_append_op Ops.new_dict_op Ops.new_frozen_set_op Ops.new_function_op Ops.new_list_op
        Ops.new_set_op Ops.new_tuple_op Ops.repr_op Ops.set_add_op Ops.set_attr_op
        Ops.set_discard_op Ops.set_item_op Ops.str_op Ops.call_request Ops.call_method_request
        Ops.key_request Ops.set_attr_request Ops.set_item_request Ops.obj_request Ops.new_request
        Ops.obj_op Ops.key_op Ops.new_op append_buffer
    ops_agree obj cls id src name key val args kwargs = (
      value_op-export _ _,
      value_op-export _ _,
      value_op-export _ _,
      value_op-export _ _,
      value_op-export _ _,
      value_op-export _ _,
      value_op-export _ _,
      value_op-export _ _,
      value_op-export _ _,
      value_op-export _ _,
      value_op-export _ _,
      value_op-export _ _,
      value_op-export _ _,
      value_op-export _ _,
      value_op-export _ _,
      value_op-export _ _,
      value_op-export _ _,
      value_op-export _ _,
      value_op-export _ _,
      value_op-export _ _,
      value_op-export _ _,
      value_op-export _ _,
      value_op-export _ _,
      value_op-export _ _,
      value_op-export _ _,
      value_op-export _ _,
      value_op-export _ _,
      value_op-export _ _,
    )
