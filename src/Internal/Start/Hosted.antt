-- ===== src/Internal/Start/Hosted.antt =====
-- The WASI host of an instance that New returns.
use go_python.Prelude.{
  text, ℕ, zero, suc, ◌≡◌, refl, ap, sym, ◌∙◌, Bytes, Option, none, some, [], ◌∷◌, Option-cases,
  inl, inr, ℤ,
}
use go_python.Value.{Result, ok, err, Error}
use go_python.Internal.Instance.{World, Words, call}
use go_python.Internal.Sandbox.{Backends, Wasi, InstanceOptions, build_wasi}
use go_python.Internal.Start.{
  mid_async_exc_addr, mid_eval_breaker_addr, mid_keyboard_interrupt_obj, Runtime, memory_cap,
  check_addresses, py_new, addr_op, set_handle, initialized, capped, boot, Started, finish,
  resolved, new, positive,
}
use go_python.Internal.Start.Ready.{and_then-ok}

module _ (backends : Backends) (wasi : Wasi backends) (runtime : Runtime wasi.Stubs)
    (host_of : runtime.guest.State → wasi.Stubs) where
  open runtime use {guest, new_module, set_max_memory, initialize}

  -- A module keeps the host that it was made with: no step of the start and no call replaces it.
  pub record IsHosted : Type 0 where
    pub made :
        (stubs : wasi.Stubs) (reserve : Option ℕ) → host_of (new_module stubs reserve) ≡ stubs
    pub cap_keeps : (cap : ℕ) (s : guest.State) → host_of (set_max_memory cap s) ≡ host_of s
    pub initialize_keeps : (s : guest.State) → host_of (initialize s).1 ≡ host_of s
    pub invoke_keeps :
        (s : guest.State) (mid : ℕ) (req : Bytes) (store : Option (Words → Words)) (ws : Words)
        → host_of (guest.invoke s mid req store ws).1 ≡ host_of s

module _ (backends : Backends) (wasi : Wasi backends) (runtime : Runtime wasi.Stubs)
    (quote : Bytes → Bytes) {host_of : runtime.guest.State → wasi.Stubs}
    (hosted : IsHosted backends wasi runtime host_of) where
  open runtime use {guest}

  capped-host :
      (max : ℤ) (s : guest.State) → host_of (capped backends wasi runtime quote max s) ≡ host_of s
  unfolding capped
  capped-host max s = elim (Option-cases (memory_cap max (runtime.memory_size s))) [
    | inl n ↦ rw (n, capped)
    | inr (max_cap, n) ↦ rw (n, capped) (hosted.cap_keeps max_cap s)
  ]

  set_handle-host :
      (dir : Bytes) (r : Result ℕ) (w : World guest)
      → host_of (set_handle backends wasi runtime quote dir r w).1.state ≡ host_of w.state
  unfolding set_handle
  set_handle-host dir (err e) w = refl
  set_handle-host dir (ok zero) w = refl
  set_handle-host dir (ok (suc n)) w = refl

  initialized-host :
      (dir : Bytes) (m : Option Bytes × guest.State)
      → host_of (initialized backends wasi runtime quote dir m).1.state ≡ host_of m.1
  unfolding initialized py_new call
  initialized-host dir (some panic, s) = refl
  initialized-host dir (none, s) = set_handle-host dir _ _ ∙ hosted.invoke_keeps s _ _ _ _

  boot-host :
      (opts : InstanceOptions backends) (stubs : wasi.Stubs)
      → host_of (boot backends wasi runtime quote opts stubs).1.state ≡ stubs
  unfolding boot
  boot-host opts stubs =
      initialized-host opts.stdlib_dir _
      ∙ hosted.initialize_keeps _
      ∙ capped-host opts.max_memory_bytes _
      ∙ hosted.made stubs (positive opts.memory_reserve_bytes)

  resolved-host :
      (what : Bytes) (mid : ℕ) (w : World guest)
      → host_of (resolved backends wasi runtime quote what mid w).1.state ≡ host_of w.state
  unfolding resolved addr_op call
  resolved-host what mid w = hosted.invoke_keeps w.state _ _ _ _

  finish-host :
      (ae be ko : ℕ) (w : World guest) (s : Started backends wasi runtime quote)
      → finish backends wasi runtime quote ae be ko w ≡ ok s
      → host_of s.world.state ≡ host_of w.state
  unfolding finish
  finish-host ae be ko w s h =
      elim (Option-cases (check_addresses (ae ∷ be ∷ []) (runtime.memory_size w.state))) [
        | inl n ↦ sym (ap state_of (rw (finish, n) at h))
        | inr (e, n) ↦ absurd (not_started (rw (finish, n) at h))
      ]
    where
      state_of : Result (Started backends wasi runtime quote) → wasi.Stubs
      state_of (ok t) = host_of t.world.state
      state_of (err _) = host_of w.state

      not_started :
          {e : Error} → ◌≡◌ {A = Result (Started backends wasi runtime quote)} (err e) (ok s) → ⊥
      not_started q = cc

  -- The module of an instance that New returns runs on the host that its options build.
  pub new-host :
      (opts : InstanceOptions backends) (s : Started backends wasi runtime quote)
      → new backends wasi runtime quote opts ≡ ok s
      → host_of s.world.state ≡ build_wasi backends wasi opts
  unfolding new
  new-host opts s h =
      let (_, b, h0) =
        and_then-ok backends wasi runtime quote
          (boot backends wasi runtime quote opts (build_wasi backends wasi opts)) _ h in
      let (ae, _, h1) = and_then-ok backends wasi runtime quote _ _ h0 in
      let (be, _, h2) = and_then-ok backends wasi runtime quote _ _ h1 in
      let (ko, _, h3) = and_then-ok backends wasi runtime quote _ _ h2 in
      finish-host ae be ko _ s h3
      ∙ resolved-host (text "KeyboardInterrupt object") mid_keyboard_interrupt_obj _
      ∙ resolved-host (text "eval_breaker address") mid_eval_breaker_addr _
      ∙ resolved-host (text "async_exc address") mid_async_exc_addr _
      ∙ boot-host opts (build_wasi backends wasi opts)
