-- ===== src/Internal/Exports/Table.antt =====
-- The table of method ids of internal/instance.go, and the wrappers it is about.
use go_python.Prelude.{
  ℤ, ℤ, ℤ, ℤ, ℤ, ℤ, ℤ, ℤ, ℤ, ℤ, ℤ, ℤ, ℕ, ◌≡◌, refl, Bytes, text, List, [], ◌∷◌, map, ℤ,
}
use go_python.Value.{ok}
use go_python.Internal.Instance.{Guest, World, call, mid_close, mid_release, mid_set_go_dispatcher}
use go_python.Internal.Start.{
  mid_async_exc_addr, mid_eval_breaker_addr, mid_keyboard_interrupt_obj, mid_new,
}
use go_python.Internal.MethodIds.{
  mid_call, mid_call_method, mid_contains, mid_del_item, mid_dict_get, mid_dict_items,
  mid_dict_keys, mid_dict_values, mid_eval, mid_get_attr, mid_get_item, mid_import, mid_is_instance,
  mid_iter, mid_len, mid_list_append, mid_new_dict, mid_new_frozen_set, mid_new_function,
  mid_new_list, mid_new_set, mid_new_tuple, mid_repr, mid_set_add, mid_set_attr, mid_set_discard,
  mid_set_item, mid_str,
}
use go_python.Internal.Exports.{
  Export, invoke_method, read_result, py_async_exc_addr, py_call, py_call_method, py_close,
  py_contains, py_delitem, py_dict_get, py_dict_items, py_dict_keys, py_dict_values, py_eval,
  py_eval_breaker_addr, py_getattr, py_getitem, py_import, py_isinstance, py_iter,
  py_keyboard_interrupt_obj, py_len, py_list_append, py_new, py_release, py_repr, py_set_add,
  py_set_discard, py_set_go_dispatcher, py_setattr, py_setitem, py_str,
}
use go_python.Internal.Exports.Constructors.{
  py_new_dict, py_new_frozenset, py_new_function, py_new_list, py_new_set, py_new_tuple,
}

-- generatedMethodIDs
abbrev pub generated_method_ids : List (Bytes × ℕ)
generated_method_ids =
    (text "PyAsyncExcAddr", mid_async_exc_addr)
    ∷ (text "PyCall", mid_call)
    ∷ (text "PyCallMethod", mid_call_method)
    ∷ (text "PyClose", mid_close)
    ∷ (text "PyContains", mid_contains)
    ∷ (text "PyDelitem", mid_del_item)
    ∷ (text "PyDictGet", mid_dict_get)
    ∷ (text "PyDictItems", mid_dict_items)
    ∷ (text "PyDictKeys", mid_dict_keys)
    ∷ (text "PyDictValues", mid_dict_values)
    ∷ (text "PyEval", mid_eval)
    ∷ (text "PyEvalBreakerAddr", mid_eval_breaker_addr)
    ∷ (text "PyGetattr", mid_get_attr)
    ∷ (text "PyGetitem", mid_get_item)
    ∷ (text "PyImport", mid_import)
    ∷ (text "PyIsinstance", mid_is_instance)
    ∷ (text "PyIter", mid_iter)
    ∷ (text "PyKeyboardInterruptObj", mid_keyboard_interrupt_obj)
    ∷ (text "PyLen", mid_len)
    ∷ (text "PyListAppend", mid_list_append)
    ∷ (text "PyNew", mid_new)
    ∷ (text "PyNewDict", mid_new_dict)
    ∷ (text "PyNewFrozenset", mid_new_frozen_set)
    ∷ (text "PyNewFunction", mid_new_function)
    ∷ (text "PyNewList", mid_new_list)
    ∷ (text "PyNewSet", mid_new_set)
    ∷ (text "PyNewTuple", mid_new_tuple)
    ∷ (text "PyRelease", mid_release)
    ∷ (text "PyRepr", mid_repr)
    ∷ (text "PySetAdd", mid_set_add)
    ∷ (text "PySetDiscard", mid_set_discard)
    ∷ (text "PySetGoDispatcher", mid_set_go_dispatcher)
    ∷ (text "PySetattr", mid_set_attr)
    ∷ (text "PySetitem", mid_set_item)
    ∷ (text "PyStr", mid_str)
    ∷ []

-- A guest that keeps the number of each export that is entered_exports, the latest first.
abbrev pub recorder : Guest
recorder = record { State = List ℕ; invoke = λ s mid req store ws. (ok [], mid ∷ s, ws) }

-- The exports that an export's wrapper has entered_exports, beginning with the instance w.
abbrev pub entered_exports : {A : Type 0} → World recorder → Export recorder A → List ℕ
entered_exports w export = (export w).1.state

module _ (w : World recorder) (h obj n m k : ℕ) (i : ℤ) (s t u : Bytes) where
  -- The generated wrappers by name, on whatever arguments.
  abbrev pub wrappers : List (Bytes × List ℕ)
  wrappers =
      (text "PyAsyncExcAddr", entered_exports w (py_async_exc_addr recorder h))
      ∷ (text "PyCall", entered_exports w (py_call recorder h obj s n t m))
      ∷ (text "PyCallMethod", entered_exports w (py_call_method recorder h obj s n t m u k))
      ∷ (text "PyClose", entered_exports w (py_close recorder h))
      ∷ (text "PyContains", entered_exports w (py_contains recorder h obj s n))
      ∷ (text "PyDelitem", entered_exports w (py_delitem recorder h obj s n))
      ∷ (text "PyDictGet", entered_exports w (py_dict_get recorder h obj s n))
      ∷ (text "PyDictItems", entered_exports w (py_dict_items recorder h obj))
      ∷ (text "PyDictKeys", entered_exports w (py_dict_keys recorder h obj))
      ∷ (text "PyDictValues", entered_exports w (py_dict_values recorder h obj))
      ∷ (text "PyEval", entered_exports w (py_eval recorder h s))
      ∷ (text "PyEvalBreakerAddr", entered_exports w (py_eval_breaker_addr recorder h))
      ∷ (text "PyGetattr", entered_exports w (py_getattr recorder h obj s n))
      ∷ (text "PyGetitem", entered_exports w (py_getitem recorder h obj s n))
      ∷ (text "PyImport", entered_exports w (py_import recorder h s obj))
      ∷ (text "PyIsinstance", entered_exports w (py_isinstance recorder h obj n))
      ∷ (text "PyIter", entered_exports w (py_iter recorder h obj))
      ∷ (text "PyKeyboardInterruptObj", entered_exports w (py_keyboard_interrupt_obj recorder h))
      ∷ (text "PyLen", entered_exports w (py_len recorder h obj))
      ∷ (text "PyListAppend", entered_exports w (py_list_append recorder h obj s n))
      ∷ (text "PyNew", entered_exports w (py_new recorder s))
      ∷ (text "PyNewDict", entered_exports w (py_new_dict recorder h s obj))
      ∷ (text "PyNewFrozenset", entered_exports w (py_new_frozenset recorder h s obj))
      ∷ (text "PyNewFunction", entered_exports w (py_new_function recorder h s obj i))
      ∷ (text "PyNewList", entered_exports w (py_new_list recorder h s obj))
      ∷ (text "PyNewSet", entered_exports w (py_new_set recorder h s obj))
      ∷ (text "PyNewTuple", entered_exports w (py_new_tuple recorder h s obj))
      ∷ (text "PyRelease", entered_exports w (py_release recorder h s obj))
      ∷ (text "PyRepr", entered_exports w (py_repr recorder h obj))
      ∷ (text "PySetAdd", entered_exports w (py_set_add recorder h obj s n))
      ∷ (text "PySetDiscard", entered_exports w (py_set_discard recorder h obj s n))
      ∷ (text "PySetGoDispatcher", entered_exports w (py_set_go_dispatcher recorder h i))
      ∷ (text "PySetattr", entered_exports w (py_setattr recorder h obj s n t m))
      ∷ (text "PySetitem", entered_exports w (py_setitem recorder h obj s n t m))
      ∷ (text "PyStr", entered_exports w (py_str recorder h obj))
      ∷ []

  -- The table is the one of the generated code: it lists every wrapper, by name and in the order of the
  -- source, and whatever the instance and the arguments are, the wrapper enters one export, which is the
  -- one that the table numbers.
  pub wrappers-generated_method_ids :
      wrappers ≡ map (λ (e : Bytes × ℕ). (e.0, e.1 ∷ w.state)) generated_method_ids
  unfolding read_result invoke_method call py_async_exc_addr py_call py_call_method py_close
      py_contains py_delitem py_dict_get py_dict_items py_dict_keys py_dict_values py_eval
      py_eval_breaker_addr py_getattr py_getitem py_import py_isinstance py_iter
      py_keyboard_interrupt_obj py_len py_list_append py_new py_new_dict py_new_frozenset
      py_new_function py_new_list py_new_set py_new_tuple py_release py_repr py_set_add
      py_set_discard py_set_go_dispatcher py_setattr py_setitem py_str
  wrappers-generated_method_ids = refl
