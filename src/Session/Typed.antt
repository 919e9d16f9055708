-- ===== src/Session/Typed.antt =====
-- The constructors and Import give values of the type that they name.
use go_python.Prelude.{ℕ, ◌≡◌, refl, sym, ap, ◌∙◌, Bytes, Bool, some, List}
use go_python.Value.{Value, Result, ok, err, Error, map_error}
use go_python.Value.Kind.{
  concrete, as_type, as_type-eq-ok, kind, kind_module, kind_list, kind_tuple, kind_set,
  kind_frozen_set, kind_dict,
}
use go_python.Wire.Encode.{encode_list, encode_dict_items, DictItem}
use go_python.Internal.Instance.{Guest, World, Context}
use go_python.Internal.Ops
use go_python.Session.{
  Act, return_result, typed_node, answered, import_error, new_aggregate, new_list, new_tuple,
  new_set, new_frozen_set, new_dict, import, ◌>>=◌, continue,
}

map_error-ok :
    {A : Type 0} (f : Error → Error) (r : Result A) {a : A} → map_error f r ≡ ok a → r ≡ ok a
map_error-ok f (ok b) h = h
map_error-ok f (err e) h = cc

-- A value of the kind, or an error.
abbrev pub OfKind : ℕ → Result Value → Type 0
OfKind k (ok v) = kind v ≡ some k
OfKind k (err e) = Unit {0}

ok-OfKind : (k : ℕ) (r : Result Value) → ((v : Value) → r ≡ ok v → kind v ≡ some k) → OfKind k r
ok-OfKind k (ok v) f = f v refl
ok-OfKind k (err e) f = tt

module _ (guest : Guest) where
  continue-ok :
      {A B : Type 0} (r : Result A) (f : A → Act guest B) (w : World guest) {b : B}
      → (continue guest r f w).0 ≡ ok b
      → (a : A) × ((f a w).0 ≡ ok b)
  unfolding continue
  continue-ok (ok a) f w h = (a, h)
  continue-ok (err e) f w h = cc

  typed_node-kind :
      (p : ℕ) (ctx : Context) (k : ℕ) (op : World guest → (Result Bytes × Bool) × World guest)
      (w : World guest) (v : Value)
      → (typed_node guest p ctx k op w).0 ≡ ok v
      → kind v ≡ some k
  unfolding typed_node ◌>>=◌ return_result
  typed_node-kind p ctx k op w v h =
      let r = answered guest p ctx op w in
      let (a, e) = continue-ok r.0 (λ x. return_result guest (as_type (concrete k) x)) r.1 h in
      let (is, same) = (as_type-eq-ok k a v).0 e in ap kind (sym same) ∙ is

  new_aggregate-kind :
      (p : ℕ) (ctx : Context) (k : ℕ)
      (op : Context → Bytes → World guest → (Result Bytes × Bool) × World guest)
      (elems : List Value) (w : World guest) (v : Value)
      → (new_aggregate guest p ctx k op elems w).0 ≡ ok v
      → kind v ≡ some k
  unfolding new_aggregate ◌>>=◌ return_result
  new_aggregate-kind p ctx k op elems w v h =
      let (enc, e) =
        continue-ok (encode_list p elems) (λ x. typed_node guest p ctx k (op ctx x)) w h in
      typed_node-kind p ctx k (op ctx enc) w v e

  new_dict-kind :
      (p : ℕ) (ctx : Context) (items : List DictItem) (w : World guest) (v : Value)
      → (new_dict guest p ctx items w).0 ≡ ok v
      → kind v ≡ some kind_dict
  unfolding new_dict ◌>>=◌ return_result
  new_dict-kind p ctx items w v h =
      let (enc, e) =
        continue-ok (encode_dict_items p items)
          (λ x. typed_node guest p ctx kind_dict (Ops.new_dict_op guest ctx x)) w h in
      typed_node-kind p ctx kind_dict (Ops.new_dict_op guest ctx enc) w v e

  -- Whatever node the guest answers with, NewList gives a list, NewTuple a tuple, NewSet a set,
  -- NewFrozenSet a frozen set and NewDict a dict, or an error.
  pub constructor-kind :
      (p : ℕ) (ctx : Context) (elems : List Value) (items : List DictItem) (w : World guest)
      → OfKind kind_list (new_list guest p ctx elems w).0
        × OfKind kind_tuple (new_tuple guest p ctx elems w).0
        × OfKind kind_set (new_set guest p ctx elems w).0
        × OfKind kind_frozen_set (new_frozen_set guest p ctx elems w).0
        × OfKind kind_dict (new_dict guest p ctx items w).0
  unfolding new_list new_tuple new_set new_frozen_set
  constructor-kind p ctx elems items w = (
    ok-OfKind _ _ (new_aggregate-kind p ctx kind_list (Ops.new_list_op guest) elems w),
    ok-OfKind _ _ (new_aggregate-kind p ctx kind_tuple (Ops.new_tuple_op guest) elems w),
    ok-OfKind _ _ (new_aggregate-kind p ctx kind_set (Ops.new_set_op guest) elems w),
    ok-OfKind _ _ (new_aggregate-kind p ctx kind_frozen_set (Ops.new_frozen_set_op guest) elems w),
    ok-OfKind _ _ (new_dict-kind p ctx items w),
  )

  -- What Import gives is a module.
  pub import-kind :
      (p : ℕ) (ctx : Context) (name : Bytes) (w : World guest) (v : Value)
      → (import guest p ctx name w).0 ≡ ok v
      → kind v ≡ some kind_module
  unfolding import ◌>>=◌ return_result
  import-kind p ctx name w v h =
      let r = answered guest p ctx (Ops.import_op guest ctx name) w in
      let check =
        λ (x : Value). map_error (import_error guest name) (as_type (concrete kind_module) x) in
      let (a, e) = continue-ok r.0 (λ x. return_result guest (check x)) r.1 h in
      let (is, same) =
        (as_type-eq-ok kind_module a v).0
          (map_error-ok (import_error guest name) (as_type (concrete kind_module) a) e) in
      ap kind (sym same) ∙ is
