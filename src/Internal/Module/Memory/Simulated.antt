-- ===== src/Internal/Module/Memory/Simulated.antt =====
-- What an instance does over linear memory, beside what it does over the guest itself.
use go_python.Prelude.{
  int32, ◌%◌, ℕ, ◌+◌, ◌*◌, ◌^◌, ◌<◌, ◌≡◌, refl, ap, sym, ◌∙◌, subst, Bytes, Bool, true, false,
  Option, none, some, List, [], ◌∷◌, length, if◌then◌else◌, arith,
}
use go_python.Value.{Result, ok, err, Error, closed as err_closed}
use go_python.Internal.Proto.{append_uint64, append_int32}
use go_python.Internal.Instance.{
  dispatcher_error, dispatched, closing, Words, Guest, World, Python, Context, drain_releases,
  guarded_call, value_op, close, ensure_dispatcher, release_request, mid_release, mid_close,
  mid_set_go_dispatcher,
}
use go_python.Internal.Module.{Wasm}
use go_python.Internal.Module.Memory.{
  Exports, IsBacked, memory_guest, Same, call-memory, guarded_call-memory,
}
use go_python.Internal.Proto.Lengths.{length-append_uint64, length-append_int32}
use go_python.Internal.Module.Memory.Requests.{length-release_request}

module _ {wasm : Wasm} {exports : Exports wasm} {live : wasm.State → List ℕ} {guest : Guest}
    {Holds : guest.State → Words → wasm.State → Type 0}
    (backed : IsBacked wasm exports live guest Holds) where
  abbrev Alike :
      {A : Type 0} → List ℕ → A × World guest → A × World (memory_guest wasm exports) → Type 0
  Alike l x y = Same wasm exports live guest Holds l x y

  Alike-if :
      {A : Type 0} {t : List ℕ} (c : Bool) {x y : A × World guest}
      {x' y' : A × World (memory_guest wasm exports)}
      → Alike t x x'
      → Alike t y y'
      → Alike t (if c then x else y) (if c then x' else y')
  Alike-if true a b = a
  Alike-if false a b = b

  drained-memory :
      (l : List ℕ) (c : Bool) (emptied released : World guest)
      (emptied' released' : World (memory_guest wasm exports)) (t : List ℕ)
      → Alike {A = Unit {0}} t (tt, emptied) (tt, emptied')
      → Alike {A = Unit {0}} t (tt, released) (tt, released')
      → Alike {A = Unit {0}} t
          (tt, elim l [ [] ↦ emptied | _ ∷ _ ↦ if c then emptied else released ])
          (tt, elim l [ [] ↦ emptied' | _ ∷ _ ↦ if c then emptied' else released' ])
  drained-memory [] c e r e' r' t a b = a
  drained-memory (id ∷ ids) true e r e' r' t a b = a
  drained-memory (id ∷ ids) false e r e' r' t a b = b

  refused-memory :
      (o : Option Error) (c : Bool) (w : World guest) (w' : World (memory_guest wasm exports))
      (run : (Result Bytes × Bool) × World guest)
      (run' : (Result Bytes × Bool) × World (memory_guest wasm exports)) (t : List ℕ)
      → Alike {A = Unit {0}} t (tt, w) (tt, w')
      → Alike t run run'
      → Alike {A = Result Bytes × Bool} t
          (elim o [
            | some e ↦ ((err e, false), w)
            | none ↦ if c then ((err err_closed, false), w) else run
          ])
          (elim o [
            | some e ↦ ((err e, false), w')
            | none ↦ if c then ((err err_closed, false), w') else run'
          ])
  refused-memory (some e) c w w' run run' t (u, same, held, l) runs = (refl, same, held, l)
  refused-memory none c w w' run run' t (u, same, held, l) runs =
      Alike-if c (refl, same, held, l) runs

  dispatched_as-memory :
      (o : Option Error) (w : World guest) (w' : World (memory_guest wasm exports)) (t : List ℕ)
      → Alike {A = Unit {0}} t (tt, w) (tt, w')
      → Alike {A = Result (Unit {0})} t
          (elim o [
            | some e ↦ (err (dispatcher_error guest e), w)
            | none ↦ (ok tt, record w { py = record w.py { dispatcher_set = true } })
          ])
          (elim o [
            | some e ↦ (err (dispatcher_error guest e), w')
            | none ↦ (ok tt, record w' { py = record w'.py { dispatcher_set = true } })
          ])
  dispatched_as-memory (some e) w w' t (u, same, held, l) = (refl, same, held, l)
  dispatched_as-memory none w w' t (u, e, held, l) =
      (refl, ap (λ (p : Python). record p { dispatcher_set = true }) e, held, l)

  dispatched-memory :
      (resp resp' : Result Bytes) (w : World guest) (w' : World (memory_guest wasm exports))
      (t : List ℕ)
      → resp' ≡ resp
      → Alike {A = Unit {0}} t (tt, w) (tt, w')
      → Alike t (dispatched guest resp w) (dispatched (memory_guest wasm exports) resp' w')
  unfolding dispatched closing dispatcher_error
  dispatched-memory resp resp' w w' t r same =
      subst
        (λ (x : Result Bytes).
          Alike t (dispatched guest resp w) (dispatched (memory_guest wasm exports) x w'))
        (sym r) (dispatched_as-memory (closing guest resp) w w' t same)

  module _ (w : World guest) (s : wasm.State) (held_words : Words)
      (h : Holds w.state held_words s) where
    drain_releases-memory :
        60 + 8 * length w.py.pending_rel < backed.limit
        → Alike {A = Unit {0}}
            (live s)
            (tt, drain_releases guest w)
            (tt, drain_releases (memory_guest wasm exports) (record { py = w.py; state = s }))
    unfolding drain_releases
    drain_releases-memory few =
        let emptied = record w { py = record w.py { pending_rel = [] } } in
        let (r, e, held, l) =
          call-memory backed emptied s held_words h mid_release
            (release_request w.py.h w.py.pending_rel)
            (omega (arith, few, length-release_request w.py.h w.py.pending_rel)) in
        drained-memory w.py.pending_rel w.py.closed _ _ _ _ (live s)
          (refl, refl, (held_words, h), refl) (refl, e, held, l)

    drained_call-memory :
        (ctx : Context) (mid : ℕ) (req : Bytes) (v : World guest)
        (v' : World (memory_guest wasm exports))
        → length req < backed.limit
        → Alike {A = Unit {0}} (live s) (tt, v) (tt, v')
        → Alike
            (live s)
            (guarded_call guest ctx mid req v)
            (guarded_call (memory_guest wasm exports) ctx mid req v')
    drained_call-memory ctx mid req v v' small (r, e, (ws, held), l) =
        let (r', e', held', l') = guarded_call-memory backed v v'.state ws held ctx mid req small in
        subst
          (λ (py : Python). Alike (live s) (guarded_call guest ctx mid req v) (
            guarded_call (memory_guest wasm exports) ctx mid req
              (record { py = py; state = v'.state })))
          (sym e) (r', e', held', l' ∙ l)

    pub value_op-memory :
        (ctx : Context) (mid : ℕ) (req : Bytes)
        → length req < backed.limit
        → 60 + 8 * length w.py.pending_rel < backed.limit
        → Alike
            (live s)
            (value_op guest ctx mid req w)
            (value_op (memory_guest wasm exports) ctx mid req (record { py = w.py; state = s }))
    unfolding value_op
    value_op-memory ctx mid req small few =
        refused-memory ctx.entry_error w.py.closed w _ _ _ (live s)
          (refl, refl, (held_words, h), refl)
          (drained_call-memory ctx mid req _ _ small (drain_releases-memory few))

    pub close-memory :
        Alike
          (live s)
          (close guest w)
          (close (memory_guest wasm exports) (record { py = w.py; state = s }))
    unfolding close closing
    close-memory =
        let (r, e, held, l) =
          call-memory backed (record w { py = record w.py { closed = true } }) s held_words h
            mid_close (append_uint64 [] 1 w.py.h)
            (omega (arith, backed.limit_least, length-append_uint64 [] 1 w.py.h)) in
        Alike-if w.py.closed (refl, refl, (held_words, h), refl)
          (ap (λ (t : Result Bytes). closing guest t) r, e, held, l)

    pub ensure_dispatcher-memory :
        Alike
          (live s)
          (ensure_dispatcher guest w)
          (ensure_dispatcher (memory_guest wasm exports) (record { py = w.py; state = s }))
    unfolding ensure_dispatcher dispatched closing
    ensure_dispatcher-memory =
        let id = (w.py.next_cb_id + 1) % 2 ^ 32 in
        let req = append_int32 (append_uint64 [] 1 w.py.h) 2 (int32 id) in
        let (r, e, held, l) =
          call-memory backed (record w { py = record w.py { next_cb_id = id } }) s held_words h
            mid_set_go_dispatcher req
            (omega (
              arith,
              backed.limit_least,
              length-append_int32 (append_uint64 [] 1 w.py.h) 2 (int32 id),
              length-append_uint64 [] 1 w.py.h,
            )) in
        Alike-if w.py.dispatcher_set (refl, refl, (held_words, h), refl)
          (Alike-if w.py.closed (refl, refl, (held_words, h), refl)
            (dispatched-memory _ _ _ _ (live s) r (refl, e, held, l)))
