-- ===== src/Internal/Module/Memory.antt =====
-- The instance over linear memory: Module.invoke with each export under its method id is the guest that
-- an instance calls, and the interrupt words stand in the same memory.
pub mod Requests
pub mod Simulated
pub mod Traces
use go_python.Prelude.{
  ℕ, zero, suc, ◌+◌, ◌*◌, ◌%◌, ◌++◌, length-append, ◌&&◌, ◌^◌, ◌<◌, ◌≤◌, ◌≡◌, refl, ap, sym, ◌∙◌,
  subst, Bytes, Bool, true, false, Option, none, some, List, [], ◌∷◌, length, if◌then◌else◌, arith,
  Option-cases, Bool-cases, inl, inr,
}
use go_python.Value.{Result, ok, err, Error, closed as err_closed}
use go_python.Internal.Proto.Varint.{length-append_varint}
use go_python.Wire.LittleEndian.{append_u64, le_bytes, length-le_bytes}
use go_python.Internal.Proto.{append_uint64, append_int32, append_bytes, append_varint, append_tag}
use go_python.Internal.Instance.{
  dispatcher_error, dispatched, closing, disarm, fire_interrupt, arm_interrupt, Words, Guest, World,
  Python, Context, call, drain_releases, payload, guarded_call, value_op, close, ensure_dispatcher,
  release_request, append_buffer, pack_ids, mid_release, mid_close, mid_set_go_dispatcher,
}
use go_python.Internal.Module.{Wasm, Export, invoke}
use go_python.Internal.Module.Transported.{IsHeap, Returned, HasRoom, invoke-kept}

-- The two words of the memory that the host accesses beside the buffers, as base.AccessMemory does, and
-- the exports. An export runs under the watchdog, whose store may fall into the run.
pub record Exports (wasm : Wasm) : Type 0 where
  pub words : wasm.State → Words
  pub set_words : Words → wasm.State → wasm.State
  pub export_of : ℕ → Option (Words → Words) → Export wasm

-- The export's function over Module.invoke.
unfoldable pub invoke_export :
    (wasm : Wasm) (exports : Exports wasm)
    → wasm.State
    → ℕ
    → Bytes
    → Option (Words → Words)
    → Words
    → Result Bytes × wasm.State × Words
invoke_export wasm exports s mid req store ws =
    let (r, s') = invoke wasm (exports.export_of mid store) req (exports.set_words ws s) in
    (r, s', exports.words s')

-- What an instance calls.
abbrev pub memory_guest : (wasm : Wasm) → Exports wasm → Guest
memory_guest wasm exports = record { State = wasm.State; invoke = invoke_export wasm exports }

module _ (wasm : Wasm) (exports : Exports wasm) (live : wasm.State → List ℕ) (guest : Guest)
    (Holds : guest.State → Words → wasm.State → Type 0) where
  -- The memory holds a state of the guest and its words, in its own blocks: the host's allocations,
  -- stores to and frees of its blocks leave it, an export that finds a request in memory answers as the
  -- guest does, and, in a state that holds one, the allocator has room for a request below the limit,
  -- which is at least 1 KiB.
  pub record IsBacked : Type 0 where
    pub heap : IsHeap wasm live
    pub limit : ℕ
    pub limit_least : 1024 ≤ limit
    pub room :
        (a : guest.State) (ws : Words) (req : Bytes) (s : wasm.State)
        → Holds a ws s
        → length req < limit
        → HasRoom wasm req s
    pub words_held :
        (a : guest.State) (ws : Words) (s : wasm.State) → Holds a ws s → exports.words s ≡ ws
    pub words_set :
        (a : guest.State) (ws ws' : Words) (s : wasm.State)
        → Holds a ws s
        → Holds a ws' (exports.set_words ws' s) × (live (exports.set_words ws' s) ≡ live s)
    pub alloc_keeps :
        (a : guest.State) (ws : Words) (n : ℕ) (s : wasm.State)
        → Holds a ws s
        → Holds a ws (wasm.alloc n s).1
    pub store_keeps :
        (a : guest.State) (ws : Words) (p : ℕ) (b : Bytes) (l : List ℕ) (s s' : wasm.State)
        → live s ≡ p ∷ l
        → wasm.store p b s ≡ some s'
        → Holds a ws s
        → Holds a ws s'
    pub free_keeps :
        (a : guest.State) (ws : Words) (p : ℕ) (l : List ℕ) (s : wasm.State)
        → live s ≡ p ∷ l
        → Holds a ws s
        → Holds a ws (wasm.free p s)
    pub answers :
        (a : guest.State) (ws : Words) (mid : ℕ) (store : Option (Words → Words)) (req : Bytes)
        (p n : ℕ) (s : wasm.State)
        → wasm.load p n s ≡ some req
        → Holds a ws s
        → let (resp, a', ws') = guest.invoke a mid req store ws in
          Returned wasm live resp (exports.export_of mid store p n s) s
          × Holds a' ws' (exports.export_of mid store p n s).1

  -- The two runs of an operation have one result, the same instance, a memory that holds the guest's
  -- state, and the blocks l. The words are the instance's: each entry writes them to the memory.
  abbrev pub Same :
      {A : Type 0} → List ℕ → A × World guest → A × World (memory_guest wasm exports) → Type 0
  Same l (r, v) (r', v') =
      (r' ≡ r) × (v'.py ≡ v.py) × ((ws : Words) × Holds v.state ws v'.state) × (live v'.state ≡ l)

module _ {wasm : Wasm} {exports : Exports wasm} {live : wasm.State → List ℕ} {guest : Guest}
    {Holds : guest.State → Words → wasm.State → Type 0}
    (backed : IsBacked wasm exports live guest Holds) where
  -- One request: the same response, the next state and words held, and the host's blocks as before.
  invoke-memory :
      (a : guest.State) (ws ws' : Words) (s : wasm.State) (mid : ℕ) (req : Bytes)
      (store : Option (Words → Words))
      → length req < backed.limit
      → Holds a ws s
      → let (resp, a', w) = guest.invoke a mid req store ws' in
        let (resp', s', w') = (memory_guest wasm exports).invoke s mid req store ws' in
        (resp' ≡ resp) × (w' ≡ w) × Holds a' w s' × (live s' ≡ live s)
  unfolding invoke_export
  invoke-memory a ws ws' s mid req store small h =
      let (set, same_live) = backed.words_set a ws ws' s h in
      let (resp, a', w) = guest.invoke a mid req store ws' in
      let (r, l, held) =
        invoke-kept wasm live backed.heap (Holds a ws') (Holds a' w) (backed.alloc_keeps a ws')
          (backed.store_keeps a ws') (backed.free_keeps a' w) (exports.export_of mid store) resp req
          (exports.set_words ws' s)
          (λ p n s1 found b. backed.answers a ws' mid store req p n s1 found b)
          (backed.room a ws' req (exports.set_words ws' s) set small) set in
      (r, backed.words_held a' w _ held, held, l ∙ same_live)

  abbrev Alike :
      {A : Type 0} → List ℕ → A × World guest → A × World (memory_guest wasm exports) → Type 0
  Alike l x y = Same wasm exports live guest Holds l x y

  module _ (w : World guest) (s : wasm.State) (held_words : Words)
      (h : Holds w.state held_words s) where
    pub call-memory :
        (mid : ℕ) (req : Bytes)
        → length req < backed.limit
        → Alike
            (live s)
            (call guest mid req w)
            (call (memory_guest wasm exports) mid req (record { py = w.py; state = s }))
    unfolding call
    call-memory mid req small =
        let (r, e, held, l) = invoke-memory w.state held_words w.py.words s mid req none small h in
        (r, ap (λ (ws : Words). record w.py { words = ws }) e, (_, held), l)

    pub guarded_call-memory :
        (ctx : Context) (mid : ℕ) (req : Bytes)
        → length req < backed.limit
        → Alike
            (live s)
            (guarded_call guest ctx mid req w)
            (guarded_call (memory_guest wasm exports) ctx mid req (record { py = w.py; state = s }))
    unfolding guarded_call payload
    guarded_call-memory ctx mid req small =
        let armed = arm_interrupt ctx w.py.kbd_interrupt_obj w.py.words in
        let store = if ctx.cancellable && ctx.fires then some fire_interrupt else none in
        let (resp, a, ws) = guest.invoke w.state mid req store armed in
        let (resp', s', ws') = invoke_export wasm exports s mid req store armed in
        let (r, e, held, l) = invoke-memory w.state held_words armed s mid req store small h in
        (
          ap (λ (t : Result Bytes). (payload guest t, (disarm ctx ws').1)) r
              ∙ ap (λ (t : Words). (payload guest resp, (disarm ctx t).1)) e,
          ap (λ (t : Words). record w.py { words = (disarm ctx t).0 }) e,
          (ws, held),
          l,
        )
