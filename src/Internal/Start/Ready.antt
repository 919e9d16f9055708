-- ===== src/Internal/Start/Ready.antt =====
-- What an instance that New returns can rely on.
use go_python.Prelude.{
  text, ℕ, zero, suc, ◌+◌, ◌%◌, ◌<◌, ◌≤◌, ◌≡◌, refl, ap, subst, ℤ, pos, negsuc, Bytes, false,
  Option, none, some, [], ◌∷◌, arith, Option-cases, inl, inr,
}
use go_python.Value.{Result, ok, err, Error}
use go_python.Internal.Instance.{World, call}
use go_python.Internal.Sandbox.{Backends, Wasi, InstanceOptions, build_wasi}
use go_python.Internal.Start.{
  mid_async_exc_addr, mid_eval_breaker_addr, mid_keyboard_interrupt_obj, Runtime, memory_cap,
  wasm_page, check_addresses, and_then, py_new, addr_op, set_handle, initialized, boot, Started,
  finish, resolved, new,
}

-- A cap that is set is a whole number of pages, the largest within the option, and not below the
-- module's initial memory.
pub memory_cap-bounds :
    (max : ℤ) (initial cap : ℕ)
    → memory_cap max initial ≡ some cap
    → (max_bytes : ℕ) × (max ≡ pos max_bytes)
      × (cap % wasm_page ≡ 0)
      × (cap ≤ max_bytes)
      × (max_bytes < cap + wasm_page)
      × (initial ≤ cap)
unfolding memory_cap
memory_cap-bounds (pos zero) initial cap h = cc
memory_cap-bounds (pos (suc n)) initial cap h =
    (suc n, refl, ground arith, ground arith, ground arith, ground arith)
memory_cap-bounds (negsuc n) initial cap h = cc

module _ (backends : Backends) (wasi : Wasi backends) (runtime : Runtime wasi.Stubs)
    (quote : Bytes → Bytes) where
  open runtime use {guest, memory_size}

  pub and_then-ok :
      {A B : Type 0} (m : Result A × World guest) (f : A → World guest → Result B) {b : B}
      → and_then backends wasi runtime quote m f ≡ ok b
      → (a : A) × (m.0 ≡ ok a) × (f a m.1 ≡ ok b)
  unfolding and_then
  and_then-ok (ok a, w) f h = (a, refl, h)
  and_then-ok (err e, w) f h = cc

  -- An instance that is live: its handle is not 0, it is open, and nothing is queued.
  pub record IsLive (w : World guest) : Type 0 where
    pub handle_pos : 0 < w.py.h
    pub is_open : w.py.closed ≡ false
    pub idle : w.py.pending_rel ≡ []
    pub no_dispatcher : w.py.dispatcher_set ≡ false

  set_handle-IsLive :
      (dir : Bytes) (r : Result ℕ) (w : World guest)
      → w.py.closed ≡ false
      → w.py.pending_rel ≡ []
      → w.py.dispatcher_set ≡ false
      → (set_handle backends wasi runtime quote dir r w).0 ≡ ok tt
      → IsLive (set_handle backends wasi runtime quote dir r w).1
  unfolding set_handle
  set_handle-IsLive dir (err e) w c p d h = cc
  set_handle-IsLive dir (ok zero) w c p d h = cc
  set_handle-IsLive dir (ok (suc n)) w c p d h = record {
    handle_pos = omega arith;
    is_open = c;
    idle = p;
    no_dispatcher = d;
  }

  initialized-IsLive :
      (dir : Bytes) (m : Option Bytes × guest.State)
      → (initialized backends wasi runtime quote dir m).0 ≡ ok tt
      → IsLive (initialized backends wasi runtime quote dir m).1
  unfolding initialized py_new call
  initialized-IsLive dir (some panic, s) h = cc
  initialized-IsLive dir (none, s) h = set_handle-IsLive dir _ _ refl refl refl h

  boot-IsLive :
      (opts : InstanceOptions backends) (stubs : wasi.Stubs)
      → (boot backends wasi runtime quote opts stubs).0 ≡ ok tt
      → IsLive (boot backends wasi runtime quote opts stubs).1
  unfolding boot
  boot-IsLive opts stubs h = initialized-IsLive opts.stdlib_dir _ h

  -- A call changes the words of an instance at most.
  resolved-IsLive :
      (what : Bytes) (mid : ℕ) (w : World guest)
      → IsLive w
      → IsLive (resolved backends wasi runtime quote what mid w).1
  unfolding resolved addr_op call
  resolved-IsLive what mid w live = record {
    handle_pos = live.handle_pos;
    is_open = live.is_open;
    idle = live.idle;
    no_dispatcher = live.no_dispatcher;
  }

  check_addresses-none :
      (a b size : ℕ) → check_addresses (a ∷ b ∷ []) size ≡ none → (a + 4 ≤ size) × (b + 4 ≤ size)
  unfolding check_addresses
  check_addresses-none a b size h = ground arith

  abbrev IsReady : Started backends wasi runtime quote → Type 0
  IsReady s =
      IsLive s.world
      × (s.async_exc_addr + 4 ≤ memory_size s.world.state)
      × (s.breaker_addr + 4 ≤ memory_size s.world.state)

  started-injective :
      {s t : Started backends wasi runtime quote}
      → ◌≡◌ {A = Result (Started backends wasi runtime quote)} (ok s) (ok t)
      → s ≡ t
  started-injective {s} h = ap (λ r. elim r [ ok x ↦ x | err _ ↦ s ]) h

  finish-IsReady :
      (ae be ko : ℕ) (w : World guest) (s : Started backends wasi runtime quote)
      → IsLive w
      → finish backends wasi runtime quote ae be ko w ≡ ok s
      → IsReady s
  unfolding finish
  finish-IsReady ae be ko w s live h =
      elim (Option-cases (check_addresses (ae ∷ be ∷ []) (memory_size w.state))) [
        | inl n ↦
            let inside = check_addresses-none ae be (memory_size w.state) n in
            subst IsReady (started-injective (rw (finish, n) at h)) (
              record {
                handle_pos = live.handle_pos;
                is_open = live.is_open;
                idle = live.idle;
                no_dispatcher = live.no_dispatcher;
              },
              inside.0,
              inside.1,
            )
        | inr (e, n) ↦ absurd (not_started (rw (finish, n) at h))
      ]
    where
      not_started :
          {e : Error} → ◌≡◌ {A = Result (Started backends wasi runtime quote)} (err e) (ok s) → ⊥
      not_started q = cc

  -- An instance that New returns is live, both interrupt words lie in its memory, and so the watchdog's
  -- stores do.
  pub new-IsLive :
      (opts : InstanceOptions backends) (s : Started backends wasi runtime quote)
      → new backends wasi runtime quote opts ≡ ok s
      → IsLive s.world
        × (s.async_exc_addr + 4 ≤ memory_size s.world.state)
        × (s.breaker_addr + 4 ≤ memory_size s.world.state)
  unfolding new finish
  new-IsLive opts s h =
      let (_, b, h0) =
        and_then-ok (boot backends wasi runtime quote opts (build_wasi backends wasi opts)) _ h in
      let live0 = boot-IsLive opts (build_wasi backends wasi opts) b in
      let (ae, _, h1) = and_then-ok _ _ h0 in
      let live1 = resolved-IsLive (text "async_exc address") mid_async_exc_addr _ live0 in
      let (be, _, h2) = and_then-ok _ _ h1 in
      let live2 = resolved-IsLive (text "eval_breaker address") mid_eval_breaker_addr _ live1 in
      let (ko, _, h3) = and_then-ok _ _ h2 in
      let live3 =
        resolved-IsLive (text "KeyboardInterrupt object") mid_keyboard_interrupt_obj _ live2 in
      finish-IsReady ae be ko _ s live3 h3
