-- ===== src/Session/InMemory.antt =====
-- Eval (python.go) of an instance over linear memory.
use go_python.Prelude.{Bool, [], ◌<◌, ℕ, ◌+◌, ◌*◌, ◌≡◌, ap, Bytes, List, length}
use go_python.Value.{Result}
use go_python.Internal.Proto.{append_bytes, append_uint64}
use go_python.Internal.Instance.{Words, Guest, World, Context}
use go_python.Internal.MethodIds.{mid_eval}
use go_python.Internal.Module.{Wasm}
use go_python.Internal.Module.Memory.{Exports, IsBacked, memory_guest}
use go_python.Internal.Module.Memory.Simulated.{value_op-memory}
use go_python.Internal.Ops
use go_python.Session.{eval}
use go_python.Session.Evaluated.{eval_outcome}

module _ {wasm : Wasm} {exports : Exports wasm} {live : wasm.State → List ℕ} {guest : Guest}
    {Holds : guest.State → Words → wasm.State → Type 0}
    (backed : IsBacked wasm exports live guest Holds) (w : World guest) (s : wasm.State)
    (ws : Words) (h : Holds w.state ws s) where
  -- Eval over the memory is Eval over the guest that the memory holds, for a request and
  -- queued releases below the limit of the memory.
  pub eval-memory :
      (p : ℕ) (ctx : Context) (src : Bytes)
      → length (append_bytes (append_uint64 [] 1 w.py.h) 2 src) < backed.limit
      → 60 + 8 * length w.py.pending_rel < backed.limit
      → (eval (memory_guest wasm exports) p ctx src (record { py = w.py; state = s })).0
        ≡ (eval guest p ctx src w).0
  unfolding eval Ops.eval_op
  eval-memory p ctx src small few =
      ap (λ (r : Result Bytes × Bool). eval_outcome p ctx r)
        (value_op-memory backed w s ws h ctx mid_eval _ small few).0
