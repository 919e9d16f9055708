-- ===== src/Internal/Instance.antt =====
-- internal.Python of instance.go: the entry point valueOp, the release queue, the interrupt words and
-- Close. The wasm module is a parameter, `Guest`: a call hands it the method id, the request and, if
-- the cancellation watchdog fires while it runs, the watchdog's store to linear memory, and it answers
-- with a response, its next state and the words in memory. One entry runs at a time, as m.mu makes it.
use go_python.Prelude.{
  int32, ◌^◌, ℕ, ◌+◌, ◌-◌, ◌*◌, ◌/◌, ◌%◌, Bytes, text, Bool, true, false, ◌&&◌, Option, none, some,
  List, [], ◌∷◌, ◌++◌, length, if◌then◌else◌,
}
use go_python.Value.{Result, ok, err, Error, closed as err_closed, panic_error, wrapped}
use go_python.Wire.LittleEndian.{append_u64}
use go_python.Internal.Proto.{
  append_uint64, append_int32, append_bytes, extract_error, read_bytes_at_field,
}

-- The async_exc slot and the eval_breaker word of the guest's memory.
pub record Words : Type 0 where
  pub async_exc : ℕ
  pub breaker : ℕ

pub record Guest : Type 1 where
  pub State : Type 0
  pub invoke : State → ℕ → Bytes → Option (Words → Words) → Words → Result Bytes × State × Words

pub record Python : Type 0 where
  pub h : ℕ
  pub kbd_interrupt_obj : ℕ
  pub closed : Bool
  pub pending_rel : List ℕ
  pub dispatcher_set : Bool
  pub next_cb_id : ℕ
  pub words : Words

-- A context as one call sees it: whether Done() is a channel, Err() at the entry, and whether it is
-- canceled while the guest runs, and Err() when the response is decoded.
pub record Context : Type 0 where
  pub cancellable : Bool
  pub entry_error : Option Error
  pub fires : Bool
  pub late_error : Option Error

-- The method ids that this file uses.
abbrev pub mid_close : ℕ
mid_close = 3

abbrev pub mid_release : ℕ
mid_release = 27

abbrev pub mid_set_go_dispatcher : ℕ
mid_set_go_dispatcher = 31

-- fireInterrupt: `|= pyAsyncExceptionBit` sets bit 3.
unfoldable pub fire_interrupt : Words → Words
fire_interrupt w = record w { breaker = w.breaker + 8 * (1 - w.breaker / 8 % 2) }

-- clearInterrupt: `&^ pyAsyncExceptionBit` clears bit 3.
unfoldable pub clear_interrupt : Bool → Words → Words
clear_interrupt fired w = record {
  async_exc = 0;
  breaker = (if fired then w.breaker - 8 * (w.breaker / 8 % 2) else w.breaker);
}

-- armInterrupt, its first half: stage the KeyboardInterrupt class. A context that cannot be canceled
-- arms nothing.
unfoldable pub arm_interrupt : Context → ℕ → Words → Words
arm_interrupt ctx kbd w = if ctx.cancellable then record w { async_exc = kbd } else w

-- The second half, disarm: the words afterwards, and whether the watchdog fired.
unfoldable pub disarm : Context → Words → Words × Bool
disarm ctx w = if ctx.cancellable then (clear_interrupt ctx.fires w, ctx.fires) else (w, false)

-- QueueRelease
unfoldable pub queue_release : ℕ → Python → Python
queue_release id p = record p { pending_rel = p.pending_rel ++ id ∷ [] }

-- The ids as one packed buffer.
unfoldable pub pack_ids : Bytes → List ℕ → Bytes
pack_ids packed [] = packed
pack_ids packed (id ∷ ids) = pack_ids (append_u64 packed id) ids

-- appendBuffer: the bytes at field f and their length at field f + 1. appendName is the same of a
-- string.
unfoldable pub append_buffer : Bytes → ℕ → Bytes → Bytes
append_buffer buf f s = append_uint64 (append_bytes buf f s) (f + 1) (length s)

unfoldable pub release_request : ℕ → List ℕ → Bytes
release_request h ids = append_buffer (append_uint64 [] 1 h) 2 (pack_ids [] ids)

module _ (guest : Guest) where
  open guest use {State, invoke}

  pub record World : Type 0 where
    pub py : Python
    pub state : State

  -- m.invoke outside of any watchdog.
  unfoldable pub call : ℕ → Bytes → World → Result Bytes × World
  call mid buf w =
      let (resp, s, words) = invoke w.state mid buf none w.py.words in
      (resp, record { py = record w.py { words = words }; state = s })

  -- drainReleases: the queue is emptied, and one call releases what it held.
  unfoldable pub drain_releases : World → World
  unfolding call
  drain_releases w =
      let emptied = record w { py = record w.py { pending_rel = [] } } in
      let released = (call mid_release (release_request w.py.h w.py.pending_rel) emptied).1 in
      elim w.py.pending_rel [ [] ↦ emptied | _ ∷ _ ↦ if w.py.closed then emptied else released ]

  -- The end of valueOp: the response's error or its payload. A panic of the reader, or its loop without
  -- end, stands as `panic_error`.
  unfoldable pub payload : Result Bytes → Result Bytes
  payload (err e) = err e
  payload (ok out) = elim (extract_error out) [
    | none ↦ err (panic_error (text "slice bounds out of range"))
    | some (some e) ↦ err e
    | some none ↦ elim (read_bytes_at_field out 1) [
      | none ↦ err (panic_error (text "slice bounds out of range"))
      | some resp ↦ ok resp
    ]
  ]

  -- The guarded call: arm, invoke, disarm.
  unfoldable pub guarded_call : Context → ℕ → Bytes → World → (Result Bytes × Bool) × World
  guarded_call ctx mid buf w =
      let armed = arm_interrupt ctx w.py.kbd_interrupt_obj w.py.words in
      let store = if ctx.cancellable && ctx.fires then some fire_interrupt else none in
      let (resp, s, words) = invoke w.state mid buf store armed in
      let (words', interrupted) = disarm ctx words in
      ((payload resp, interrupted), record { py = record w.py { words = words' }; state = s })

  -- valueOp: the response envelope, and whether the watchdog fired.
  unfoldable pub value_op : Context → ℕ → Bytes → World → (Result Bytes × Bool) × World
  value_op ctx mid buf w =
      let run = guarded_call ctx mid buf (drain_releases w) in
      elim ctx.entry_error [
        | some e ↦ ((err e, false), w)
        | none ↦ if w.py.closed then ((err err_closed, false), w) else run
      ]

  unfoldable pub closing : Result Bytes → Option Error
  closing (err e) = some e
  closing (ok resp) = elim (extract_error resp) [
    | none ↦ some (panic_error (text "slice bounds out of range"))
    | some e ↦ e
  ]

  -- Close
  unfoldable pub close : World → Option Error × World
  unfolding call closing
  close w =
      let shut = record w { py = record w.py { closed = true } } in
      let (resp, w') = call mid_close (append_uint64 [] 1 w.py.h) shut in
      if w.py.closed then (none, w) else (closing resp, w')

  unfoldable pub dispatcher_error : Error → Error
  dispatcher_error = wrapped (text "set Go dispatcher: ")

  unfoldable pub dispatched : Result Bytes → World → Result (Unit {0}) × World
  unfolding closing dispatcher_error
  dispatched resp w = elim (closing resp) [
    | some e ↦ (err (dispatcher_error e), w)
    | none ↦ (ok tt, record w { py = record w.py { dispatcher_set = true } })
  ]

  -- EnsureDispatcher of dispatch.go: once per instance, a handler is registered under a new callback id
  -- and the guest is told the id. The id is used up also where the guest's answer is an error.
  unfoldable pub ensure_dispatcher : World → Result (Unit {0}) × World
  unfolding call dispatched
  ensure_dispatcher w =
      let id = (w.py.next_cb_id + 1) % 2 ^ 32 in
      let (resp, w') =
        call mid_set_go_dispatcher (append_int32 (append_uint64 [] 1 w.py.h) 2 (int32 id))
          (record w { py = record w.py { next_cb_id = id } }) in
      if w.py.dispatcher_set
      then (ok tt, w)
      else if w.py.closed
      then (err err_closed, w)
      else dispatched resp w'
