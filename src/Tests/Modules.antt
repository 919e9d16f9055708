-- ===== src/Tests/Modules.antt =====
-- The theorems on the transport in the module's memory, the exports and the releases at concrete inputs.
use go_python.Internal.Proto.{extract_error}
use go_python.Internal.Module.{panic_of}
use go_python.Prelude.{
  pos, true, ◌⊎◌, subst, map, negsuc, ℕ, ◌+◌, ◌*◌, ◌^◌, ◌≡◌, refl, sym, ap, Bytes, text, none, some,
  List, [], ◌∷◌, length, arith,
}
use go_python.Value.{ok, err, errorf}
use go_python.Internal.Module.{
  callback_request, Wasm, Export, Callbacks, CallbackHandler, handle_callback, in_band,
  decode_result, handler_of,
}
use go_python.Internal.Module.Transported.{IsHeap, IsExport, remove}
use go_python.Internal.Module.Called.{Answered, handle_callback_lem}
use go_python.Internal.Module.Lock.{
  Locks, entered, called_back, Schedule, start, step, enters, calls_back, LockStep, IsExclusive,
  inside, in_handler, resumed, resumes, Schedule-IsExclusive, Schedule-progress,
}
use go_python.Internal.Exports.Agree.{AllAgree, ops_agree}
use go_python.Internal.Instance.{World}
use go_python.Internal.Exports.Table.{
  recorder, wrappers, generated_method_ids, wrappers-generated_method_ids,
}
use go_python.Bridge.{GoFunc, Functions, returns, panics}
use go_python.Bridge.Callback.{request}
use go_python.Value.{none_value, bool_value}
use go_python.Tests.Blocks.{put, block, block-length, put-here, stored_state}
use go_python.Tests.Data.{empty_guest, open_python, live_context}

-- A memory with one block at each pointer; the allocator gives the pointer 8.
abbrev Memory : Type 0
Memory = List ℕ × (ℕ → Bytes)

abbrev wasm : Wasm
wasm = record {
  State = Memory;
  alloc = λ n s. (8, (8 ∷ s.0, s.1));
  free = λ p s. (remove p s.0, s.1);
  load = λ p n s. block n (s.1 p);
  store = λ p b s. some (s.0, put p b s.1);
}

abbrev live : Memory → List ℕ
live s = s.0

wasm-IsHeap : IsHeap wasm live
wasm-IsHeap = record {
  alloc_word = λ n s. omega arith;
  alloc_live = λ n s nz. refl;
  free_live = λ p s. refl;
  store_live = λ p b s s' e. sym (ap (λ (t : Memory). t.0) (stored_state (s.0, put p b s.1) s' e));
  load_store = λ p b s s' e.
      subst (λ (t : Memory). block (length b) (t.1 p) ≡ some b)
        (stored_state (s.0, put p b s.1) s' e) (rw (put-here p b s.1) (block-length b));
  load_nothing = λ p s. refl;
}

-- An export that answers each request with one byte, in a block at 16.
abbrev one_byte : Export wasm
one_byte p n s = (ok (16 * 2 ^ 32 + 1), (16 ∷ s.0, put 16 (7 ∷ []) s.1))

one_byte-IsExport : IsExport wasm live one_byte (λ req. ok (7 ∷ []))
unfolding decode_result
one_byte-IsExport p n s req h = (16 * 2 ^ 32 + 1, refl, refl, refl, refl)

abbrev no_memory : Memory
no_memory = ([], λ p. [])

abbrev failing : CallbackHandler wasm
failing mid req s = (err (errorf (text "boom")), s)

abbrev one_callback : Callbacks wasm
one_callback = record { callbacks = (1, failing) ∷ []; next_cb_id = 1 }

handle_callback_lem_example :
    (extract_error (in_band wasm (err (errorf (text "boom")))) ≡ some (some (errorf (text "boom"))))
    × Answered wasm
        (in_band wasm (err (errorf (text "boom"))))
        no_memory
        (handle_callback wasm one_callback 1 3 0 0 no_memory)
unfolding handler_of panic_of callback_request in_band go_python.Errors.error_string text
    go_python.Internal.Proto.append_bytes go_python.Internal.Proto.append_tag
    go_python.Internal.Proto.append_varint go_python.Internal.Proto.append_varint_loop
handle_callback_lem_example =
    handle_callback_lem wasm live wasm-IsHeap failing one_callback 1 3 0 0 [] no_memory refl refl
      (refl, omega arith) (omega arith, (λ e. cc), (_, refl))

abbrev open_world : World empty_guest
open_world = record { py = record open_python { pending_rel = [] }; state = 0 }

ops_agree_example :
    AllAgree empty_guest live_context open_world 5 6 (pos 1) (text "1") (text "sys") [] [] [] []
ops_agree_example =
    ops_agree empty_guest live_context open_world refl refl refl refl 5 6 (pos 1) (text "1")
      (text "sys") [] [] [] []

-- Goroutine 1 enters, its export calls back, and goroutine 2 enters while the handler runs.
abbrev idle : Locks
idle = record { holder = none; frames = λ g. [] }

abbrev called : Locks
called = called_back 1 [] (entered 1 idle)

abbrev two_calls : Locks
two_calls = entered 2 called

two_goroutines : Schedule idle two_calls
unfolding entered called_back
two_goroutines =
    step (step (step start 1 (enters idle refl)) 1 (calls_back [] (entered 1 idle) refl refl)) 2
      (enters called refl)

-- The export of goroutine 2 calls back too, and goroutine 1 goes on in its call while that of goroutine 2,
-- which entered later, waits for its handler.
abbrev both_called : Locks
both_called = called_back 2 [] two_calls

outer_first : Schedule idle (resumed 1 [] both_called)
unfolding entered called_back
outer_first =
    step (step two_goroutines 2 (calls_back [] two_calls refl refl)) 1
      (resumes [] both_called refl refl)

Schedule-IsExclusive_example : IsExclusive two_calls
Schedule-IsExclusive_example =
    Schedule-IsExclusive {s = idle} {t = two_calls} (λ g. tt) two_goroutines

Schedule-progress_example :
    ((in_handler ≡ in_handler)
      × ((u : Locks) × LockStep 1 two_calls u × (u.frames 1 ≡ inside ∷ [])))
    ⊎ ((h : ℕ) × (two_calls.holder ≡ some h)
        × ((u : Locks) × LockStep h two_calls u × (u.holder ≡ none)))
unfolding entered called_back
Schedule-progress_example =
    Schedule-progress {s = idle} {t = two_calls} (λ g. tt) two_goroutines 1 in_handler [] refl

abbrev no_calls : World recorder
no_calls = record { py = open_python; state = [] }

wrappers-generated_method_ids_example :
    wrappers no_calls 7 5 1 2 3 (negsuc 0) (text "a") (text "b") (text "c")
    ≡ map (λ (e : Bytes × ℕ). (e.0, e.1 ∷ [])) generated_method_ids
wrappers-generated_method_ids_example =
    wrappers-generated_method_ids no_calls 7 5 1 2 3 (negsuc 0) (text "a") (text "b") (text "c")

-- A function that returns None, the second of two in the table, and a call with True in the memory.
abbrev none_func : GoFunc
none_func args kwargs = returns (ok none_value)

abbrev a_table : Functions
a_table = record { funcs = (1, λ args kwargs. panics []) ∷ []; next_func_id = 1 }

abbrev a_call : Memory
a_call = ([], put 32 (request (bool_value true ∷ []) []) (λ p. []))
