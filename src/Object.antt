-- ===== src/Object.antt =====
-- The object protocol of object.go: the operations of every handle-backed value, and those of lists,
-- dicts and sets. Each takes the world of the instance that the handle belongs to, and returns its
-- result with the world afterwards.
pub mod Items
pub mod Guards
pub mod Foreign
pub mod Arguments
pub mod Views
pub mod Called
use go_python.Prelude.{
  ℕ, zero, suc, ◌+◌, ◌≡◌, refl, ℤ, pos, Bytes, text, Bool, true, false, not, Option, none, some,
  List, [], ◌∷◌, ◌++◌, ◌==◌, if◌then◌else◌,
}
use go_python.Value.{
  Value, ObjectHandle, ObjectValue, handle, Result, ok, err, Error, errorf, ◌>>=◌,
}
use go_python.Value.Convert.{Basic, value_of, int}
use go_python.Wire.Encode.{
  encode_single, encode_list, encode_call_args, Arg, DictItem, released_error,
}
use go_python.Wire.Envelope.{
  decode_node_result, decode_empty_result, decode_i64_result, decode_bool_result,
  decode_text_result, decode_list_result, decode_exists_node_result,
}
use go_python.Internal.Instance.{Guest, World, Context}
use go_python.Internal.Ops

-- The pairing loop of DictValue.Items.
pairs : List Value → List DictItem
pairs (k ∷ v ∷ rest) = record { key = k; value = v } ∷ pairs rest
pairs _ = []

odd : List Value → Bool
odd [] = false
odd (v ∷ rest) = not (odd rest)

unfoldable pub pair_items : List Value → Result (List DictItem)
unfolding pairs odd
pair_items flat =
    if odd flat then err (errorf (text "python: malformed dict items result")) else ok (pairs flat)

module _ (guest : Guest) where
  abbrev pub W : Type 0
  W = World guest

  -- The end of an operation: a transport error is returned, a response is decoded.
  unfoldable pub respond :
      {A : Type 0} → (Bytes → Bool → Result A) → (Result Bytes × Bool) × W → Result A × W
  respond decode ((err e, interrupted), w) = (err e, w)
  respond decode ((ok resp, interrupted), w) = (decode resp interrupted, w)

  -- raw(): a released handle is refused.
  unfoldable pub raw : {A : Type 0} → ObjectValue → W → Result A × W → Result A × W
  raw o w op = if (handle o).released then (err released_error, w) else op

  -- An argument that cannot be encoded ends the operation before the guest is entered.
  unfoldable pub encoded : {A B : Type 0} → Result B → W → (B → Result A × W) → Result A × W
  encoded (err e) w k = (err e, w)
  encoded (ok b) w k = k b

  done : Option Error → Result (Unit {0})
  done none = ok tt
  done (some e) = err e

  -- The decoders as an operation uses them.
  abbrev node_of : ObjectValue → Context → Bytes → Bool → Result Value
  node_of o ctx resp i = decode_node_result (handle o).owner ctx.late_error resp i

  abbrev empty_of : ObjectValue → Context → Bytes → Bool → Result (Unit {0})
  empty_of o ctx resp i = done (decode_empty_result (handle o).owner ctx.late_error resp i)

  abbrev list_of : ObjectValue → Context → Bytes → Bool → Result (List Value)
  list_of o ctx resp i = decode_list_result (handle o).owner ctx.late_error resp i

  abbrev bool_of : ObjectValue → Context → Bytes → Bool → Result Bool
  bool_of o ctx resp i = decode_bool_result (handle o).owner ctx.late_error resp i

  abbrev text_of : ObjectValue → Context → Bytes → Bool → Result Bytes
  text_of o ctx resp i = decode_text_result (handle o).owner ctx.late_error resp i

  unfoldable pub attr : ObjectValue → Context → Bytes → W → Result Value × W
  attr o ctx name w =
      raw o w (respond (node_of o ctx) (Ops.get_attr_op guest ctx (handle o).id name w))

  unfoldable pub set_attr : ObjectValue → Context → Bytes → Value → W → Result (Unit {0}) × W
  unfolding done
  set_attr o ctx name v w = raw o w (
      encoded (encode_single (handle o).owner v) w
        λ val. respond (empty_of o ctx) (Ops.set_attr_op guest ctx (handle o).id name val w))

  unfoldable pub item : ObjectValue → Context → Value → W → Result Value × W
  item o ctx key w = raw o w (
      encoded (encode_single (handle o).owner key) w
        λ k. respond (node_of o ctx) (Ops.get_item_op guest ctx (handle o).id k w))

  unfoldable pub set_item : ObjectValue → Context → Value → Value → W → Result (Unit {0}) × W
  unfolding done
  set_item o ctx key v w = raw o w (
      encoded (encode_single (handle o).owner key) w λ k.
        encoded (encode_single (handle o).owner v) w
          λ val. respond (empty_of o ctx) (Ops.set_item_op guest ctx (handle o).id k val w))

  unfoldable pub del_item : ObjectValue → Context → Value → W → Result (Unit {0}) × W
  unfolding done
  del_item o ctx key w = raw o w (
      encoded (encode_single (handle o).owner key) w
        λ k. respond (empty_of o ctx) (Ops.del_item_op guest ctx (handle o).id k w))

  -- Len. An int of a 64-bit host is an int64.
  unfoldable pub len : ObjectValue → Context → W → Result ℤ × W
  len o ctx w = raw o w (
      respond (decode_i64_result (handle o).owner ctx.late_error)
        (Ops.len_op guest ctx (handle o).id w))

  unfoldable pub contains : ObjectValue → Context → Value → W → Result Bool × W
  contains o ctx v w = raw o w (
      encoded (encode_single (handle o).owner v) w
        λ val. respond (bool_of o ctx) (Ops.contains_op guest ctx (handle o).id val w))

  -- Call
  unfoldable pub call_object : ObjectValue → Context → List Arg → W → Result Value × W
  call_object o ctx args w = raw o w (
      encoded (encode_call_args (handle o).owner args) w
        λ enc. respond (node_of o ctx) (Ops.call_op guest ctx (handle o).id enc.0 enc.1 w))

  unfoldable pub call_method : ObjectValue → Context → Bytes → List Arg → W → Result Value × W
  call_method o ctx name args w = raw o w (
      encoded (encode_call_args (handle o).owner args) w λ enc.
        respond (node_of o ctx) (Ops.call_method_op guest ctx (handle o).id name enc.0 enc.1 w))

  unfoldable pub str : ObjectValue → Context → W → Result Bytes × W
  str o ctx w = raw o w (respond (text_of o ctx) (Ops.str_op guest ctx (handle o).id w))

  unfoldable pub repr : ObjectValue → Context → W → Result Bytes × W
  repr o ctx w = raw o w (respond (text_of o ctx) (Ops.repr_op guest ctx (handle o).id w))

  -- The checks of IsInstance on the class; `none` is a nil interface.
  class_id : ObjectValue → Option ObjectValue → Result ℕ
  class_id o none = err (errorf (text "python: IsInstance: nil class"))
  class_id o (some cls) =
      if not ((handle cls).owner == (handle o).owner)
      then err (errorf (text "python: class belongs to a different Python instance"))
      else if (handle cls).released
      then err (errorf (text "python: class handle has been released"))
      else ok (handle cls).id

  unfoldable pub is_instance : ObjectValue → Context → Option ObjectValue → W → Result Bool × W
  unfolding class_id
  is_instance o ctx cls w = raw o w (
      encoded (class_id o cls) w
        λ id. respond (bool_of o ctx) (Ops.is_instance_op guest ctx (handle o).id id w))

  -- values: list(obj)
  unfoldable pub values : ObjectValue → Context → W → Result (List Value) × W
  values o ctx w = raw o w (respond (list_of o ctx) (Ops.iter_op guest ctx (handle o).id w))

  -- index, Index: obj[i]; SetIndex
  unfoldable pub index : ObjectValue → Context → ℤ → W → Result Value × W
  index o ctx i w = item o ctx (value_of (int i)) w

  unfoldable pub set_index : ObjectValue → Context → ℤ → Value → W → Result (Unit {0}) × W
  set_index o ctx i v w = set_item o ctx (value_of (int i)) v w

  -- ListValue.Append
  unfoldable pub append : ObjectValue → Context → List Value → W → Result (Unit {0}) × W
  unfolding done
  append o ctx vals w = raw o w (
      encoded (encode_list (handle o).owner vals) w
        λ enc. respond (empty_of o ctx) (Ops.list_append_op guest ctx (handle o).id enc w))

  -- DictValue.Get: the value, and whether the key is there.
  unfoldable pub dict_get : ObjectValue → Context → Value → W → Result (Value × Bool) × W
  dict_get o ctx key w = raw o w (
      encoded (encode_single (handle o).owner key) w λ k.
        respond (decode_exists_node_result (handle o).owner ctx.late_error)
          (Ops.dict_get_op guest ctx (handle o).id k w))

  unfoldable pub dict_keys : ObjectValue → Context → W → Result (List Value) × W
  dict_keys o ctx w = raw o w (respond (list_of o ctx) (Ops.dict_keys_op guest ctx (handle o).id w))

  unfoldable pub dict_values : ObjectValue → Context → W → Result (List Value) × W
  dict_values o ctx w =
      raw o w (respond (list_of o ctx) (Ops.dict_values_op guest ctx (handle o).id w))

  -- DictValue.Items: the flat list, in pairs.
  unfoldable pub dict_items : ObjectValue → Context → W → Result (List DictItem) × W
  dict_items o ctx w = raw o w (
      respond (λ resp i. list_of o ctx resp i >>= pair_items)
        (Ops.dict_items_op guest ctx (handle o).id w))

  -- SetValue.Add and SetValue.Discard
  unfoldable pub add : ObjectValue → Context → Value → W → Result (Unit {0}) × W
  unfolding done
  add o ctx v w = raw o w (
      encoded (encode_single (handle o).owner v) w
        λ val. respond (empty_of o ctx) (Ops.set_add_op guest ctx (handle o).id val w))

  unfoldable pub discard : ObjectValue → Context → Value → W → Result (Unit {0}) × W
  unfolding done
  discard o ctx v w = raw o w (
      encoded (encode_single (handle o).owner v) w
        λ val. respond (empty_of o ctx) (Ops.set_discard_op guest ctx (handle o).id val w))
