-- ===== src/Bridge/Called.antt =====
-- A call from Python to a Go function, from the guest's memory and back into it: handleCallback of
-- internal/python.go, the dispatcher, and handleUserCallback of bridge.go.
use go_python.Prelude.{ℕ, List, [], ◌∷◌}
use go_python.Value.{Value}
use go_python.Internal.Module.{Wasm, CallbackHandler}
use go_python.Bridge.{GoFunc, Functions, register, handle_user_callback}

-- Functions that are bound later.
abbrev pub register_all : List GoFunc → Functions → Functions
register_all [] t = t
register_all (fn ∷ fns) t = register_all fns (register fn t).1

module _ (wasm : Wasm) (p : ℕ) where
  -- UserHandler, as New sets it, of a function that does not call the module again.
  abbrev pub user_handler : Functions → CallbackHandler wasm
  user_handler t mid req s = (handle_user_callback p t mid req, s)
