-- ===== src/Internal/Module/Memory/Traces.antt =====
-- Sequences of operations of one instance, over linear memory and over the guest that the memory holds.
use go_python.Prelude.{ℕ, ◌<◌, Bytes, Bool, Option, List, [], ◌∷◌, length}
use go_python.Value.{Result, Error, closed as err_closed}
use go_python.Internal.Instance.{
  Words, Guest, World, Context, value_op, close, ensure_dispatcher, queue_release,
}
use go_python.Internal.Module.{Wasm}
use go_python.Internal.Module.Memory.{Exports, IsBacked, memory_guest}

-- What is done with an instance: a request of an operation, a finalizer's release, Close and
-- EnsureDispatcher; and what each gives.
pub data Operation : Type 0 where
  request : Context → ℕ → Bytes → Operation
  release : ℕ → Operation
  shut : Operation
  install : Operation

pub data Answer : Type 0 where
  responded : Result Bytes × Bool → Answer
  queued : Answer
  was_shut : Option Error → Answer
  installed : Result (Unit {0}) → Answer

module _ (guest : Guest) where
  abbrev pub perform : Operation → World guest → Answer × World guest
  perform (request ctx mid req) w = let (r, w') = value_op guest ctx mid req w in (responded r, w')
  perform (release id) w = (queued, record w { py = queue_release id w.py })
  perform shut w = let (e, w') = close guest w in (was_shut e, w')
  perform install w = let (r, w') = ensure_dispatcher guest w in (installed r, w')

  abbrev pub perform_all : List Operation → World guest → List Answer × World guest
  perform_all [] w = ([], w)
  perform_all (o ∷ os) w =
      let (a, w') = perform o w in let (rest, w'') = perform_all os w' in (a ∷ rest, w'')

-- Each request is below the limit.
abbrev pub AllSmall : ℕ → List Operation → Type 0
AllSmall limit [] = Unit {0}
AllSmall limit (request ctx mid req ∷ os) = (length req < limit) × AllSmall limit os
AllSmall limit (o ∷ os) = AllSmall limit os

module _ {wasm : Wasm} {exports : Exports wasm} {live : wasm.State → List ℕ} {guest : Guest}
    {Holds : guest.State → Words → wasm.State → Type 0}
    (backed : IsBacked wasm exports live guest Holds) where
  abbrev over : Guest
  over = memory_guest wasm exports

  abbrev beside : World guest → wasm.State → World (memory_guest wasm exports)
  beside w s = record { py = w.py; state = s }
