-- ===== src/Internal/Answered.antt =====
-- valueOp where the guest answers a message with an envelope.
use go_python.Prelude.{
  ◌^◌, ◌<◌, ℕ, ◌≡◌, ap, ◌∙◌, Bytes, Bool, Option, none, some, [], length, if◌then◌else◌, ◌&&◌,
  false, arith,
}
use go_python.Value.{Result, ok}
use go_python.Internal.Proto.{append_bytes}
use go_python.Internal.Instance.{
  Words, Guest, World, Context, value_op, guarded_call, drain_releases, payload, disarm,
  arm_interrupt, fire_interrupt,
}
use go_python.Internal.Drain.{value_op-live}
use go_python.Internal.Transport.{payload-append_bytes}

fired : (ctx : Context) (ws : Words) → (disarm ctx ws).1 ≡ (ctx.cancellable && ctx.fires)
unfolding disarm
fired ctx ws = ground arith

module _ (guest : Guest) (ctx : Context) (mid : ℕ) (req env : Bytes) where
  -- The guest answers the request with the envelope, whatever the watchdog does.
  abbrev pub Answers : guest.State → Type 0
  Answers s =
      (store : Option (Words → Words)) (ws : Words)
      → (guest.invoke s mid req store ws).0 ≡ ok (append_bytes [] 1 env)

  guarded_call-answer :
      (w : World guest)
      → length env < 2 ^ 62
      → Answers w.state
      → (guarded_call guest ctx mid req w).0 ≡ (ok env, ctx.cancellable && ctx.fires)
  unfolding guarded_call
  guarded_call-answer w size answers =
      let armed = arm_interrupt ctx w.py.kbd_interrupt_obj w.py.words in
      let store = if ctx.cancellable && ctx.fires then some fire_interrupt else none in
      let taken = (payload-append_bytes guest env size).0 in
      λ i. (
        (ap (λ (r : Result Bytes). payload guest r) (answers store armed) ∙ taken) i,
        fired ctx (guest.invoke w.state mid req store armed).2 i,
      )

  pub value_op-answer :
      (w : World guest)
      → ctx.entry_error ≡ none
      → w.py.closed ≡ false
      → length env < 2 ^ 62
      → Answers (drain_releases guest w).state
      → (value_op guest ctx mid req w).0 ≡ (ok env, ctx.cancellable && ctx.fires)
  value_op-answer w live is_open size answers =
      ap (λ (r : (Result Bytes × Bool) × World guest). r.0)
        (value_op-live guest ctx mid req w live is_open)
      ∙ guarded_call-answer (drain_releases guest w) size answers
