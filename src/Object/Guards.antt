-- ===== src/Object/Guards.antt =====
-- What an object operation on a released handle does.
use go_python.Prelude.{◌≡◌, Bytes, true, Option, List}
use go_python.Value.{Value, ObjectValue, handle, err}
use go_python.Wire.Encode.{Arg, released_error}
use go_python.Internal.Instance.{Guest, World, Context}
use go_python.Object

module _ (guest : Guest) where
  -- Every operation on a released handle is refused with the same error, and neither the guest nor the
  -- instance changes.
  pub released-refused :
      (o : ObjectValue) (ctx : Context) (name : Bytes) (v u : Value) (vals : List Value)
      (args : List Arg) (cls : Option ObjectValue) (w : World guest)
      → (handle o).released ≡ true
      → (Object.attr guest o ctx name w ≡ (err released_error, w))
        × (Object.set_attr guest o ctx name v w ≡ (err released_error, w))
        × (Object.item guest o ctx v w ≡ (err released_error, w))
        × (Object.set_item guest o ctx v u w ≡ (err released_error, w))
        × (Object.del_item guest o ctx v w ≡ (err released_error, w))
        × (Object.len guest o ctx w ≡ (err released_error, w))
        × (Object.contains guest o ctx v w ≡ (err released_error, w))
        × (Object.call_object guest o ctx args w ≡ (err released_error, w))
        × (Object.call_method guest o ctx name args w ≡ (err released_error, w))
        × (Object.str guest o ctx w ≡ (err released_error, w))
        × (Object.repr guest o ctx w ≡ (err released_error, w))
        × (Object.is_instance guest o ctx cls w ≡ (err released_error, w))
        × (Object.values guest o ctx w ≡ (err released_error, w))
        × (Object.append guest o ctx vals w ≡ (err released_error, w))
        × (Object.dict_get guest o ctx v w ≡ (err released_error, w))
        × (Object.dict_keys guest o ctx w ≡ (err released_error, w))
        × (Object.dict_values guest o ctx w ≡ (err released_error, w))
        × (Object.dict_items guest o ctx w ≡ (err released_error, w))
        × (Object.add guest o ctx v w ≡ (err released_error, w))
        × (Object.discard guest o ctx v w ≡ (err released_error, w))
  unfolding Object.attr Object.set_attr Object.item Object.set_item Object.del_item Object.len
      Object.contains Object.call_object Object.call_method Object.str Object.repr
      Object.is_instance Object.values Object.append Object.dict_get Object.dict_keys
      Object.dict_values Object.dict_items Object.add Object.discard Object.raw
  released-refused o ctx name v u vals args cls w r = (
    rw r,
    rw r,
    rw r,
    rw r,
    rw r,
    rw r,
    rw r,
    rw r,
    rw r,
    rw r,
    rw r,
    rw r,
    rw r,
    rw r,
    rw r,
    rw r,
    rw r,
    rw r,
    rw r,
    rw r,
  )
