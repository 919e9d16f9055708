-- ===== src/Object/Views.antt =====
-- The methods of lists, tuples, dicts and sets in object.go that are those of every handle.
use go_python.Prelude.{ℤ, List}
use go_python.Value.{Value, ObjectValue, Result}
use go_python.Internal.Instance.{Guest, World, Context}
use go_python.Object.{values, index, set_item, del_item}

module _ (guest : Guest) where
  -- ListValue.Values
  unfoldable pub list_values :
      ObjectValue → Context → World guest → Result (List Value) × World guest
  list_values l ctx w = values guest l ctx w

  -- TupleValue.Index
  unfoldable pub tuple_index : ObjectValue → Context → ℤ → World guest → Result Value × World guest
  tuple_index t ctx i w = index guest t ctx i w

  -- TupleValue.Values
  unfoldable pub tuple_values :
      ObjectValue → Context → World guest → Result (List Value) × World guest
  tuple_values t ctx w = values guest t ctx w

  -- DictValue.Set
  unfoldable pub dict_set :
      ObjectValue → Context → Value → Value → World guest → Result (Unit {0}) × World guest
  dict_set d ctx key v w = set_item guest d ctx key v w

  -- DictValue.Delete
  unfoldable pub dict_delete :
      ObjectValue → Context → Value → World guest → Result (Unit {0}) × World guest
  dict_delete d ctx key w = del_item guest d ctx key w

  -- SetValue.Values
  unfoldable pub set_values :
      ObjectValue → Context → World guest → Result (List Value) × World guest
  set_values s ctx w = values guest s ctx w

  -- FrozenSetValue.Values
  unfoldable pub frozen_set_values :
      ObjectValue → Context → World guest → Result (List Value) × World guest
  frozen_set_values s ctx w = values guest s ctx w
