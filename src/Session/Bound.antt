-- ===== src/Session/Bound.antt =====
-- NewFunction and Bind of bridge.go, as sequences of operations on one world.
use go_python.Prelude.{ℕ, int32, Bytes, text, [], ◌∷◌}
use go_python.Value.{Value, Result, ok, err, errorf}
use go_python.Value.Kind.{kind_function}
use go_python.Internal.Instance.{Guest, World, Context, ensure_dispatcher}
use go_python.Internal.Ops
use go_python.Object
use go_python.Bridge.{Functions, GoFunc, register}
use go_python.Session.{Act, ◌>>=◌, continue, typed_node, import, on_object}

module _ (guest : Guest) where
  -- NewFunction of a function that is not nil: the dispatcher is set up, and the function is in the table
  -- before the guest hears of it. Its context is the background one.
  unfoldable pub new_function :
      ℕ
      → Context
      → Functions
      → Bytes
      → GoFunc
      → World guest
      → (Result Value × World guest) × Functions
  new_function p ctx t name fn w =
      let (ready, w') = ensure_dispatcher guest w in
      let (id, t') = register fn t in
      elim ready [
        | err e ↦ ((err e, w'), t)
        | ok _ ↦ (
          typed_node guest p ctx kind_function (Ops.new_function_op guest ctx name (int32 id)) w',
          t',
        )
      ]

  set_main : ℕ → Context → Bytes → Value → Act guest (Unit {0})
  set_main p ctx name f =
      ◌>>=◌ guest (import guest p ctx (text "__main__"))
        (λ main. on_object guest main (λ o. Object.set_attr guest o ctx name f))

  -- Bind
  unfoldable pub bind :
      ℕ
      → Context
      → Functions
      → Bytes
      → GoFunc
      → World guest
      → (Result (Unit {0}) × World guest) × Functions
  unfolding set_main continue
  bind p ctx t [] fn w = ((err (errorf (text "python: empty name for Bind")), w), t)
  bind p ctx t (c ∷ name) fn w =
      let ((r, w'), t') = new_function p ctx t (c ∷ name) fn w in
      (continue guest r (set_main p ctx (c ∷ name)) w', t')
