-- ===== src/Internal/Module/Called.antt =====
-- How callbacks are found and answered.
use go_python.Prelude.{
  ==_iff, ℕ, ◌+◌, ◌*◌, ◌/◌, ◌%◌, ◌^◌, ◌<◌, ◌≡◌, refl, ap, ◌∙◌, Bytes, Bool, true, false, none, some,
  List, [], ◌∷◌, length, ◌==◌, if◌then◌else◌, arith,
}
use go_python.Value.{Result, ok, err, errorf}
use go_python.Errors.{error_string}
use go_python.Internal.Proto.{extract_error}
use go_python.Internal.Transport.{an_error}
use go_python.Internal.Module.Transported.{IsHeap, HasRoom}
use go_python.Internal.Module.{
  Wasm, CallbackHandler, Callbacks, handler_of, without, register_callback, unregister_callback,
  decode_result, encode_result, wptr, placed, encode_callback_result, in_band, answer_guest,
  handler_result, panic_of, callback_request, handled, handled_by, handle_callback,
}

-- A packed result unpacks to its pointer and length.
pub decode_result-encode_result :
    (ptr len : ℕ) → ptr < 2 ^ 32 → len < 2 ^ 32 → decode_result (encode_result ptr len) ≡ (ptr, len)
unfolding decode_result encode_result
decode_result-encode_result ptr len p l =
    let high : (ptr * 2 ^ 32 % 2 ^ 64 + len) / 2 ^ 32 ≡ ptr = omega arith in
    let low : (ptr * 2 ^ 32 % 2 ^ 64 + len) % 2 ^ 32 ≡ len = omega arith in λ i. (high i, low i)

twice :
    {A : Type 0} (b : Bool) (x y z : A)
    → (if b then x else if b then y else z) ≡ (if b then x else z)
twice true x y z = refl
twice false x y z = refl

module _ (wasm : Wasm) where
  open wasm use {State, alloc, free, load, store}

  handler_of-without :
      (id other : ℕ) (l : List (ℕ × CallbackHandler wasm))
      → handler_of wasm other (without wasm id l)
        ≡ (if id == other then none else handler_of wasm other l)
  unfolding handler_of without
  handler_of-without id other [] = ground arith
  handler_of-without id other ((i, h) ∷ l) = ground (arith, handler_of-without id other l)

  -- A callback that is registered is found under its id, and once it is unregistered no handler is: every
  -- other id is as it was before the registration.
  pub register_callback_lem :
      (h : CallbackHandler wasm) (m : Callbacks wasm) (other : ℕ)
      → let (id, m') = register_callback wasm h m in
        (handler_of wasm id m'.callbacks ≡ some h)
        × (handler_of wasm other (unregister_callback wasm id m').callbacks
            ≡ (if id == other then none else handler_of wasm other m.callbacks))
  unfolding register_callback unregister_callback handler_of
  register_callback_lem h m other =
      let id = (m.next_cb_id + 1) % 2 ^ 32 in
      (
        rw ((==_iff id id).1 refl) refl,
        handler_of-without id other ((id, h) ∷ m.callbacks)
            ∙ twice (id == other) none (some h) (handler_of wasm other m.callbacks),
      )

  -- What the guest finds of a response: 0 for an empty one, else its bytes at the pointer.
  abbrev pub Answered : Bytes → State → Result ℕ × State → Type 0
  Answered [] s m = m ≡ (ok 0, s)
  Answered (b ∷ resp) s m =
      (packed : ℕ) × (m.0 ≡ ok packed)
      × ((decode_result packed).1 ≡ length (b ∷ resp))
      × (load (decode_result packed).0 (decode_result packed).1 m.1 ≡ some (b ∷ resp))

  answer_guest_lem :
      (live : State → List ℕ)
      → IsHeap wasm live
      → (resp : Bytes) (s : State) → HasRoom wasm resp s
      → Answered resp s (answer_guest wasm resp s)
  unfolding answer_guest encode_callback_result placed
  answer_guest_lem live heap [] s room = refl
  answer_guest_lem live heap (b ∷ resp) s (small, nz, (s', e)) =
      let (p, s1) = alloc (wptr (b ∷ resp)) s in
      let unpacked =
        decode_result-encode_result p (length (b ∷ resp)) (heap.alloc_word (wptr (b ∷ resp)) s)
          small in
      rw e (
        encode_result p (length (b ∷ resp)),
        refl,
        ap (λ (q : ℕ × ℕ). q.1) unpacked,
        ap (λ (q : ℕ × ℕ). load q.0 q.1 s') unpacked ∙ heap.load_store p (b ∷ resp) s1 s' e,
      )

  -- A response in band: the handler's own, or a message that reads as its error.
  abbrev pub InBand : Result Bytes → Bytes → Type 0
  InBand (ok resp) b = b ≡ resp
  InBand (err e) b = extract_error b ≡ some (some (errorf (error_string e)))

  -- A handler that returned: not by a panic, and with an error of fewer than 2 ^ 62 bytes if any.
  abbrev pub HasReturned : Result Bytes → Type 0
  HasReturned (ok resp) = Unit {0}
  HasReturned (err e) = (panic_of wasm e ≡ none) × (length (error_string e) < 2 ^ 62)

  in_band-InBand : (r : Result Bytes) → HasReturned r → InBand r (in_band wasm r)
  unfolding in_band
  in_band-InBand (ok resp) h = refl
  in_band-InBand (err e) h = an_error (error_string e) h.1

  handler_result-returned :
      (r : Result Bytes) (s : State)
      → HasReturned r
      → handler_result wasm r s ≡ answer_guest wasm (in_band wasm r) s
  unfolding handler_result
  handler_result-returned (ok resp) s h = refl
  handler_result-returned (err e) s h = rw (handler_result, h.0) refl

  -- A callback runs the handler that is registered under its id on the bytes that the guest passed, and,
  -- if the handler returns, the guest finds, in the memory as the handler and the allocator left it, byte
  -- for byte the handler's response, or, for its error, a message from which the reader of errors takes the
  -- error's text. That text has fewer than 2 ^ 62 bytes, and there is room for the response.
  pub handle_callback_lem :
      (live : State → List ℕ)
      → IsHeap wasm live
      → (h : CallbackHandler wasm) (m : Callbacks wasm) (id mid ptr len : ℕ) (req : Bytes)
        (s : State)
      → handler_of wasm id m.callbacks ≡ some h
      → callback_request wasm ptr len s ≡ some req
      → HasReturned (h mid req s).0
      → HasRoom wasm (in_band wasm (h mid req s).0) (h mid req s).1
      → InBand (h mid req s).0 (in_band wasm (h mid req s).0)
        × Answered
            (in_band wasm (h mid req s).0)
            (h mid req s).1
            (handle_callback wasm m id mid ptr len s)
  unfolding handle_callback handled_by handled
  handle_callback_lem live heap h m id mid ptr len req s found passed returned room =
      let (r, s') = h mid req s in
      (
        in_band-InBand r returned,
        rw (found, passed, handler_result-returned r s' returned)
            (answer_guest_lem live heap (in_band wasm r) s' room),
      )
