-- ===== src/Internal/Ops.antt =====
-- The bridge operations of instance.go: each builds its request and sends it by valueOp under its
-- method id.
use go_python.Prelude.{ℤ, ℕ, Bytes, Bool, []}
use go_python.Value.{Result}
use go_python.Internal.Proto.{append_uint64, append_int32, append_bytes}
use go_python.Internal.MethodIds.{
  mid_call, mid_call_method, mid_contains, mid_del_item, mid_dict_get, mid_dict_items,
  mid_dict_keys, mid_dict_values, mid_eval, mid_get_attr, mid_get_item, mid_import, mid_is_instance,
  mid_iter, mid_len, mid_list_append, mid_new_dict, mid_new_frozen_set, mid_new_function,
  mid_new_list, mid_new_set, mid_new_tuple, mid_repr, mid_set_add, mid_set_discard, mid_set_attr,
  mid_set_item, mid_str,
}
use go_python.Internal.Instance.{Guest, World, Context, append_buffer, value_op}

-- The requests begin with the interpreter, and mostly go on with the object's id.
abbrev head : ℕ → Bytes
head h = append_uint64 [] 1 h

abbrev object_head : ℕ → ℕ → Bytes
object_head h obj = append_uint64 (head h) 2 obj

-- objOp, keyOp and newOp: the shared request shapes.
unfoldable pub obj_request : ℕ → ℕ → Bytes
obj_request h obj = object_head h obj

unfoldable pub key_request : ℕ → ℕ → Bytes → Bytes
key_request h obj key = append_buffer (object_head h obj) 3 key

unfoldable pub new_request : ℕ → Bytes → Bytes
new_request h elems = append_buffer (head h) 2 elems

unfoldable pub call_request : ℕ → ℕ → Bytes → Bytes → Bytes
call_request h callable args kwargs =
    append_buffer (append_buffer (object_head h callable) 3 args) 5 kwargs

unfoldable pub call_method_request : ℕ → ℕ → Bytes → Bytes → Bytes → Bytes
call_method_request h obj name args kwargs =
    append_buffer (append_buffer (append_buffer (object_head h obj) 3 name) 5 args) 7 kwargs

unfoldable pub set_attr_request : ℕ → ℕ → Bytes → Bytes → Bytes
set_attr_request h obj name val = append_buffer (append_buffer (object_head h obj) 3 name) 5 val

unfoldable pub set_item_request : ℕ → ℕ → Bytes → Bytes → Bytes
set_item_request h obj key val = append_buffer (append_buffer (object_head h obj) 3 key) 5 val

module _ (guest : Guest) where
  -- An operation: the response envelope or an error, whether the watchdog fired, and the world.
  abbrev pub Op : Type 0
  Op = World guest → (Result Bytes × Bool) × World guest

  unfoldable pub obj_op : Context → ℕ → ℕ → Op
  obj_op ctx mid obj w = value_op guest ctx mid (obj_request w.py.h obj) w

  unfoldable pub key_op : Context → ℕ → ℕ → Bytes → Op
  key_op ctx mid obj key w = value_op guest ctx mid (key_request w.py.h obj key) w

  unfoldable pub new_op : Context → ℕ → Bytes → Op
  new_op ctx mid elems w = value_op guest ctx mid (new_request w.py.h elems) w

  unfoldable pub eval_op : Context → Bytes → Op
  eval_op ctx src w = value_op guest ctx mid_eval (append_bytes (head w.py.h) 2 src) w

  unfoldable pub import_op : Context → Bytes → Op
  import_op ctx name w = value_op guest ctx mid_import (append_buffer (head w.py.h) 2 name) w

  unfoldable pub call_op : Context → ℕ → Bytes → Bytes → Op
  call_op ctx callable args kwargs w =
      value_op guest ctx mid_call (call_request w.py.h callable args kwargs) w

  unfoldable pub call_method_op : Context → ℕ → Bytes → Bytes → Bytes → Op
  call_method_op ctx obj name args kwargs w =
      value_op guest ctx mid_call_method (call_method_request w.py.h obj name args kwargs) w

  -- GetAttrOp sends the name as keyOp sends a key.
  unfoldable pub get_attr_op : Context → ℕ → Bytes → Op
  get_attr_op ctx obj name w = value_op guest ctx mid_get_attr (key_request w.py.h obj name) w

  unfoldable pub set_attr_op : Context → ℕ → Bytes → Bytes → Op
  set_attr_op ctx obj name val w =
      value_op guest ctx mid_set_attr (set_attr_request w.py.h obj name val) w

  unfoldable pub get_item_op : Context → ℕ → Bytes → Op
  get_item_op ctx obj key w = value_op guest ctx mid_get_item (key_request w.py.h obj key) w

  unfoldable pub set_item_op : Context → ℕ → Bytes → Bytes → Op
  set_item_op ctx obj key val w =
      value_op guest ctx mid_set_item (set_item_request w.py.h obj key val) w

  unfoldable pub del_item_op : Context → ℕ → Bytes → Op
  del_item_op ctx obj key w = value_op guest ctx mid_del_item (key_request w.py.h obj key) w

  unfoldable pub len_op : Context → ℕ → Op
  unfolding obj_op
  len_op ctx obj = obj_op ctx mid_len obj

  unfoldable pub str_op : Context → ℕ → Op
  unfolding obj_op
  str_op ctx obj = obj_op ctx mid_str obj

  unfoldable pub repr_op : Context → ℕ → Op
  unfolding obj_op
  repr_op ctx obj = obj_op ctx mid_repr obj

  unfoldable pub iter_op : Context → ℕ → Op
  unfolding obj_op
  iter_op ctx obj = obj_op ctx mid_iter obj

  unfoldable pub dict_keys_op : Context → ℕ → Op
  unfolding obj_op
  dict_keys_op ctx obj = obj_op ctx mid_dict_keys obj

  unfoldable pub dict_values_op : Context → ℕ → Op
  unfolding obj_op
  dict_values_op ctx obj = obj_op ctx mid_dict_values obj

  unfoldable pub dict_items_op : Context → ℕ → Op
  unfolding obj_op
  dict_items_op ctx obj = obj_op ctx mid_dict_items obj

  unfoldable pub contains_op : Context → ℕ → Bytes → Op
  unfolding key_op
  contains_op ctx obj key = key_op ctx mid_contains obj key

  unfoldable pub dict_get_op : Context → ℕ → Bytes → Op
  unfolding key_op
  dict_get_op ctx obj key = key_op ctx mid_dict_get obj key

  unfoldable pub list_append_op : Context → ℕ → Bytes → Op
  unfolding key_op
  list_append_op ctx obj key = key_op ctx mid_list_append obj key

  unfoldable pub set_add_op : Context → ℕ → Bytes → Op
  unfolding key_op
  set_add_op ctx obj key = key_op ctx mid_set_add obj key

  unfoldable pub set_discard_op : Context → ℕ → Bytes → Op
  unfolding key_op
  set_discard_op ctx obj key = key_op ctx mid_set_discard obj key

  unfoldable pub is_instance_op : Context → ℕ → ℕ → Op
  is_instance_op ctx obj cls w =
      value_op guest ctx mid_is_instance (append_uint64 (object_head w.py.h obj) 3 cls) w

  unfoldable pub new_list_op : Context → Bytes → Op
  unfolding new_op
  new_list_op ctx elems = new_op ctx mid_new_list elems

  unfoldable pub new_tuple_op : Context → Bytes → Op
  unfolding new_op
  new_tuple_op ctx elems = new_op ctx mid_new_tuple elems

  unfoldable pub new_set_op : Context → Bytes → Op
  unfolding new_op
  new_set_op ctx elems = new_op ctx mid_new_set elems

  unfoldable pub new_frozen_set_op : Context → Bytes → Op
  unfolding new_op
  new_frozen_set_op ctx elems = new_op ctx mid_new_frozen_set elems

  unfoldable pub new_dict_op : Context → Bytes → Op
  unfolding new_op
  new_dict_op ctx elems = new_op ctx mid_new_dict elems

  unfoldable pub new_function_op : Context → Bytes → ℤ → Op
  new_function_op ctx name func_id w =
      value_op guest ctx mid_new_function
        (append_int32 (append_buffer (head w.py.h) 2 name) 4 func_id) w
