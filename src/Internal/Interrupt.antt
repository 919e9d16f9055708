-- ===== src/Internal/Interrupt.antt =====
-- Cancellation: what a call leaves in the interrupt words of guest memory.
use go_python.Prelude.{ℕ, ◌/◌, ◌%◌, ◌≡◌, refl, Bytes, true, false, none, arith}
use go_python.Internal.Instance.{
  Guest, World, Context, Words, fire_interrupt, clear_interrupt, disarm, value_op, guarded_call,
}

-- Firing and clearing are inverse on a breaker word whose async-exception bit is clear, and every
-- other bit of the word stays as it was in both.
pub clear_interrupt-fire_interrupt :
    (w : Words)
    → w.breaker / 8 % 2 ≡ 0
    → ((clear_interrupt true (fire_interrupt w)).breaker ≡ w.breaker)
      × ((fire_interrupt w).breaker / 8 % 2 ≡ 1)
      × ((fire_interrupt w).breaker % 8 ≡ w.breaker % 8)
      × ((fire_interrupt w).breaker / 16 ≡ w.breaker / 16)
unfolding clear_interrupt fire_interrupt
clear_interrupt-fire_interrupt w h = (omega arith, omega arith, omega arith, omega arith)

module _ (guest : Guest) where
  -- Whatever the guest does with the words, an operation in which the watchdog fires reports that, and
  -- leaves no exception staged and the async-exception bit clear: nothing lingers into the next call.
  pub value_op-words :
      (ctx : Context) (mid : ℕ) (buf : Bytes) (w : World guest)
      → ctx.cancellable ≡ true
      → ctx.entry_error ≡ none
      → w.py.closed ≡ false
      → ctx.fires ≡ true
      → ((value_op guest ctx mid buf w).1.py.words.async_exc ≡ 0)
        × ((value_op guest ctx mid buf w).1.py.words.breaker / 8 % 2 ≡ 0)
        × ((value_op guest ctx mid buf w).0.1 ≡ true)
  unfolding value_op guarded_call disarm clear_interrupt
  value_op-words ctx mid buf w c e cl f = rw (e, cl, c, f) (refl, omega arith, refl)
