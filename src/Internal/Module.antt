-- ===== src/Internal/Module.antt =====
-- The transport of internal/python.go: a request and a response in the linear memory of the wasm
-- module, and the callbacks out of it. The module's allocator, memory and exports are parameters. A
-- panic stands as `panic_error`.
pub mod Transported
pub mod Memory
pub mod Imports
pub mod Called
pub mod Lock
use go_python.Prelude.{
  ℕ, zero, suc, ◌+◌, ◌*◌, ◌/◌, ◌%◌, ◌^◌, Bytes, text, Bool, true, false, ◌&&◌, Option, none, some,
  List, [], ◌∷◌, length, ltb, ◌==◌, if◌then◌else◌,
}
use go_python.Value.{Result, ok, err, Error, errorf, panic_error}
use go_python.Errors.{error_string}
use go_python.Internal.Proto.{append_uint64, append_bytes, extract_error, read_bytes_at_field}

-- The module: WasmAlloc, WasmFree, a slice of Memory, `none` where it is out of range, and copy into
-- Memory from an offset on, `none` where that is past the end. Pointers and packed results are the bit
-- patterns of wptr and int64.
pub record Wasm : Type 1 where
  pub State : Type 0
  pub alloc : ℕ → State → ℕ × State
  pub free : ℕ → State → State
  pub load : ℕ → ℕ → State → Option Bytes
  pub store : ℕ → Bytes → State → Option State

abbrev pub out_of_range : Error
out_of_range = panic_error (text "slice bounds out of range")

-- decodeResult: the pointer in the high half, the length in the low one.
unfoldable pub decode_result : ℕ → ℕ × ℕ
decode_result packed = (packed / 2 ^ 32, packed % 2 ^ 32)

-- `int64(ptr)<<32 | int64(len(resp))`: a length fits in the low half.
unfoldable pub encode_result : ℕ → ℕ → ℕ
encode_result ptr len = ptr * 2 ^ 32 % 2 ^ 64 + len

abbrev pub wptr : Bytes → ℕ
wptr s = length s % 2 ^ 32

module _ (wasm : Wasm) where
  open wasm use {State, alloc, free, load, store}

  -- An export: the request's pointer and length to a packed response, or the error of a trap.
  abbrev pub Export : Type 0
  Export = ℕ → ℕ → State → Result ℕ × State

  taken : ℕ → Option Bytes → State → Result Bytes × State
  taken ptr none s = (err out_of_range, s)
  taken ptr (some out) s = (ok out, free ptr s)

  -- The end of invoke: the response is copied out and freed. One of no bytes has no buffer.
  unfoldable pub unpack_response : Result ℕ × State → Result Bytes × State
  unfolding taken
  unpack_response (err e, s) = (err e, s)
  unpack_response (ok packed, s) =
      let (ptr, len) = decode_result packed in
      let rest = taken ptr (load ptr len s) s in if len == 0 then (ok [], s) else rest

  stored : Export → ℕ → ℕ → Option State → State → Result Bytes × State
  stored call ptr len none s = (err out_of_range, s)
  stored call ptr len (some s') s = unpack_response (call ptr len s')

  -- The deferred WasmFree of the request, on every way out.
  unfoldable pub free_request : ℕ → State → State
  free_request ptr s = if ptr == 0 then s else free ptr s

  -- Module.invoke, under m.mu. An empty request has no buffer.
  unfoldable pub invoke : Export → Bytes → State → Result Bytes × State
  unfolding stored
  invoke call [] s = unpack_response (call 0 0 s)
  invoke call (b ∷ req) s =
      let (ptr, s1) = alloc (wptr (b ∷ req)) s in
      let (r, s2) = stored call ptr (wptr (b ∷ req)) (store ptr (b ∷ req) s1) s1 in
      (r, free_request ptr s2)

  read_type_name : Bytes → Result Bytes
  read_type_name resp = elim (extract_error resp) [
    | none ↦ err out_of_range
    | some (some e) ↦ err e
    | some none ↦ elim (read_bytes_at_field resp 1) [ none ↦ err out_of_range | some s ↦ ok s ]
  ]

  named : ℕ → ℕ → Option Bytes → State → Result Bytes × State
  unfolding read_type_name
  named req ptr none s = (err out_of_range, free req s)
  named req ptr (some resp) s = (read_type_name resp, free req (free ptr s))

  named_of : ℕ → (ℕ → ℕ → State → ℕ × State) → ℕ → Option State → State → Result Bytes × State
  unfolding named
  named_of req get_type_name len none s = (err out_of_range, s)
  named_of req get_type_name len (some s1) s =
      let (packed, s2) = get_type_name req len s1 in
      let (ptr, n) = decode_result packed in
      let rest = named req ptr (load ptr n s2) s2 in if n == 0 then (ok [], free req s2) else rest

  -- resolveTypeName, over WasmifyGetTypeName: both buffers are freed unless the copy of the request
  -- panics.
  unfoldable pub resolve_type_name : (ℕ → ℕ → State → ℕ × State) → ℕ → State → Result Bytes × State
  unfolding named_of
  resolve_type_name get_type_name ptr s =
      let buf = append_uint64 [] 1 ptr in
      let (req, s1) = alloc (wptr buf) s in
      named_of req get_type_name (wptr buf) (store req buf s1) s1

  -- CallbackHandler: the handler runs without m.mu, and may call the module again.
  abbrev pub CallbackHandler : Type 0
  CallbackHandler = ℕ → Bytes → State → Result Bytes × State

  -- dispatcher.HandleCallback of internal/dispatch.go, the one handler that an instance registers.
  unfoldable pub dispatch : Option CallbackHandler → CallbackHandler
  dispatch none mid req s = (err (errorf (text "python: no Go function handler installed")), s)
  dispatch (some user_handler) mid req s = user_handler mid req s

  -- The registry under m.cbMu, the latest entry of an id first. The ids are bit patterns of int32.
  pub record Callbacks : Type 0 where
    pub callbacks : List (ℕ × CallbackHandler)
    pub next_cb_id : ℕ

  unfoldable pub handler_of : ℕ → List (ℕ × CallbackHandler) → Option CallbackHandler
  handler_of id [] = none
  handler_of id ((i, h) ∷ rest) =
      let later = handler_of id rest in if i == id then some h else later

  unfoldable pub without : ℕ → List (ℕ × CallbackHandler) → List (ℕ × CallbackHandler)
  without id [] = []
  without id ((i, h) ∷ rest) =
      let later = without id rest in if i == id then later else (i, h) ∷ later

  -- RegisterCallback
  unfoldable pub register_callback : CallbackHandler → Callbacks → ℕ × Callbacks
  register_callback h m =
      let id = (m.next_cb_id + 1) % 2 ^ 32 in
      (id, record { callbacks = (id, h) ∷ m.callbacks; next_cb_id = id })

  -- UnregisterCallback
  unfoldable pub unregister_callback : ℕ → Callbacks → Callbacks
  unregister_callback id m = record m { callbacks = without id m.callbacks }

  placed : ℕ → ℕ → Option State → State → Result ℕ × State
  placed ptr len none s = (err out_of_range, s)
  placed ptr len (some s') s = (ok (encode_result ptr len), s')

  -- encodeCallbackResult
  unfoldable pub encode_callback_result : Bytes → State → Result ℕ × State
  unfolding placed
  encode_callback_result resp s =
      let (ptr, s1) = alloc (wptr resp) s in placed ptr (length resp) (store ptr resp s1) s1

  -- The response of a handler; an error's text is field 15.
  unfoldable pub in_band : Result Bytes → Bytes
  in_band (ok resp) = resp
  in_band (err e) = append_bytes [] 15 (error_string e)

  answer_guest : Bytes → State → Result ℕ × State
  answer_guest [] s = (ok 0, s)
  answer_guest (b ∷ resp) s = encode_callback_result (b ∷ resp) s

  -- What the guest passes; a length that is not positive passes nothing.
  unfoldable pub callback_request : ℕ → ℕ → State → Option Bytes
  callback_request ptr len s = if ltb 0 len && ltb len (2 ^ 31) then load ptr len s else some []

  unfoldable pub panic_of : Error → Option Bytes
  panic_of (panic_error t) = some t
  panic_of e = none

  -- After the handler. A panic of it goes on, once m.mu is held again.
  handler_result : Result Bytes → State → Result ℕ × State
  unfolding answer_guest panic_of
  handler_result (ok resp) s = answer_guest (in_band (ok resp)) s
  handler_result (err e) s = elim (panic_of e) [
    | some t ↦ (err (panic_error t), s)
    | none ↦ answer_guest (in_band (err e)) s
  ]

  handled : CallbackHandler → ℕ → Option Bytes → State → Result ℕ × State
  unfolding handler_result
  handled h mid none s = (err out_of_range, s)
  handled h mid (some req) s = let (r, s') = h mid req s in handler_result r s'

  handled_by : Option CallbackHandler → ℕ → ℕ → ℕ → State → Result ℕ × State
  unfolding handled
  handled_by none mid ptr len s = (ok 0, s)
  handled_by (some h) mid ptr len s = handled h mid (callback_request ptr len s) s

  -- handleCallback, which is Callback_invoke.
  unfoldable pub handle_callback : Callbacks → ℕ → ℕ → ℕ → ℕ → State → Result ℕ × State
  unfolding handled_by
  handle_callback m id mid ptr len s = handled_by (handler_of id m.callbacks) mid ptr len s
