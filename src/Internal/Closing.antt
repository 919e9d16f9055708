-- ===== src/Internal/Closing.antt =====
-- The life of an instance: Close, and what operations do afterwards.
use go_python.Prelude.{
  ◌⊎◌, ap, ◌∙◌, ℕ, ◌≡◌, refl, Bytes, true, false, none, some, arith, Option-cases, inl, inr,
}
use go_python.Value.{err, Error, closed as err_closed}
use go_python.Internal.Instance.{Guest, World, Context, value_op, close, queue_release}

module _ (guest : Guest) where
  -- Under a context that is done an operation returns the context's error, and otherwise on a closed
  -- instance ErrClosed; neither the guest nor the instance changes, no release is sent.
  pub value_op-refused :
      (ctx : Context) (mid : ℕ) (buf : Bytes) (w : World guest) (e : Error)
      → (ctx.entry_error ≡ some e)
        ⊎ ((ctx.entry_error ≡ none) × (w.py.closed ≡ true) × (e ≡ err_closed))
      → value_op guest ctx mid buf w ≡ ((err e, false), w)
  unfolding value_op
  value_op-refused ctx mid buf w e (inl s) = rw s
  value_op-refused ctx mid buf w e (inr (n, c, q)) = rw (n, c, q)

  closed-world :
      (ctx : Context) (mid : ℕ) (buf : Bytes) (w : World guest)
      → w.py.closed ≡ true
      → (value_op guest ctx mid buf w).1 ≡ w
  closed-world ctx mid buf w c = elim (Option-cases ctx.entry_error) [
    | inl n ↦ ap (λ r. r.1) (value_op-refused ctx mid buf w err_closed (inr (n, c, refl)))
    | inr (e, s) ↦ ap (λ r. r.1) (value_op-refused ctx mid buf w e (inl s))
  ]

  close-of_closed : (w : World guest) → w.py.closed ≡ true → close guest w ≡ (none, w)
  unfolding close
  close-of_closed w c = simp c

  pub close-closed : (w : World guest) → (close guest w).1.py.closed ≡ true
  unfolding close
  close-closed w = ground arith

  -- Close closes, whatever the guest answers; it is idempotent: the second call returns nil and
  -- changes nothing, so the guest is finalized once.
  pub close-close :
      (w : World guest)
      → ((close guest w).1.py.closed ≡ true)
        × (close guest (close guest w).1 ≡ (none, (close guest w).1))
  close-close w = (close-closed w, close-of_closed (close guest w).1 (close-closed w))

  -- A step of the instance: an operation, the queueing of a release by a finalizer, or Close.
  pub data Step : World guest → World guest → Type 0 where
    operation :
        (ctx : Context) (mid : ℕ) (buf : Bytes) (w : World guest)
        → Step w (value_op guest ctx mid buf w).1
    finalizer : (id : ℕ) (w : World guest) → Step w (record w { py = queue_release id w.py })
    closing_step : (w : World guest) → Step w (close guest w).1

  pub data Reach (s : World guest) : World guest → Type 0 where
    here : Reach s s
    next : {t u : World guest} → Reach s t → Step t u → Reach s u

  Step-closed :
      {t u : World guest}
      → Step t u
      → t.py.closed ≡ true
      → (u.py.closed ≡ true) × (u.state ≡ t.state)
  unfolding queue_release
  Step-closed (operation ctx mid buf w) c = rw (closed-world ctx mid buf w c) (c, refl)
  Step-closed (finalizer id w) c = (c, refl)
  Step-closed (closing_step w) c = (close-closed w, ap (λ r. r.1.state) (close-of_closed w c))

  -- Once closed an instance stays closed, and no sequence of operations, finalizers and Close calls
  -- enters the guest again.
  pub Reach-closed :
      {s t : World guest}
      → s.py.closed ≡ true
      → Reach s t
      → (t.py.closed ≡ true) × (t.state ≡ s.state)
  Reach-closed c here = (c, refl)
  Reach-closed c (next r st) =
      let before = Reach-closed c r in
      let after = Step-closed st before.0 in (after.0, after.1 ∙ before.1)
