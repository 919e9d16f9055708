-- ===== src/Internal/Start.antt =====
-- New of instance.go: the boot of an instance. The wasm runtime is a parameter: a module is made with
-- its host and its memory reservation, has a size of memory, a cap for it, and an initializer that may
-- panic; the guest then answers calls. `quote` is the verb %q of package fmt.
pub mod Ready
pub mod Hosted
use go_python.Prelude.{
  ℕ, zero, suc, ◌+◌, ◌*◌, ◌/◌, ◌%◌, ◌^◌, ℤ, pos, negsuc, Bytes, text, itoa, Bool, true, false,
  Option, none, some, List, [], ◌∷◌, ◌++◌, leb, ltb, if◌then◌else◌,
}
use go_python.Value.{Result, ok, err, Error, errorf, wrapped, map_error}
use go_python.Internal.Proto.{append_bytes, append_uint64}
use go_python.Internal.Instance.{Guest, World, Python, Words, call}
use go_python.Internal.Exports.{method_error, number_result}
use go_python.Internal.Sandbox.{Backends, Wasi, InstanceOptions, build_wasi}

abbrev pub mid_async_exc_addr : ℕ
mid_async_exc_addr = 0

abbrev pub mid_eval_breaker_addr : ℕ
mid_eval_breaker_addr = 11

abbrev pub mid_keyboard_interrupt_obj : ℕ
mid_keyboard_interrupt_obj = 17

abbrev pub mid_new : ℕ
mid_new = 20

-- The transpiled module as the host starts it: NewWithWASIReserve or NewWithWASI, Memory,
-- SetMaxMemory, and Initialize with WasmInit, which give the text of a panic. `fresh_words` are the
-- interrupt words as the module starts.
pub record Runtime (Stubs : Type 0) : Type 1 where
  pub guest : Guest
  pub new_module : Stubs → Option ℕ → guest.State
  pub memory_size : guest.State → ℕ
  pub set_max_memory : ℕ → guest.State → guest.State
  pub initialize : guest.State → Option Bytes × guest.State
  pub fresh_words : Words

abbrev pub wasm_page : ℕ
wasm_page = 65536

-- The cap of the memory: the option rounded down to a page, unless it is not positive or below the
-- module's initial memory.
unfoldable pub memory_cap : ℤ → ℕ → Option ℕ
memory_cap (pos (suc n)) initial =
    let cap = suc n / wasm_page * wasm_page in if leb initial cap then some cap else none
memory_cap _ initial = none

abbrev pub positive : ℤ → Option ℕ
positive (pos (suc n)) = some (suc n)
positive _ = none

-- The digits of %x; as many rounds as `n + 1` are enough.
unfoldable pub hex_digits : ℕ → ℕ → Bytes → Bytes
hex_digits zero n acc = acc
hex_digits (suc fuel) n acc =
    let digit = if ltb (n % 16) 10 then 48 + n % 16 else 87 + n % 16 in
    let more = hex_digits fuel (n / 16) (digit ∷ acc) in if ltb n 16 then digit ∷ acc else more

out_of_range : ℕ → ℕ → Error
out_of_range a size = errorf (
    text "interrupt address 0x"
    ++ (hex_digits (suc a) a []
        ++ (text " out of range (memory is " ++ (itoa size ++ text " bytes)"))))

-- The loop over the two addresses, each of which has four bytes in the memory.
unfoldable pub check_addresses : List ℕ → ℕ → Option Error
unfolding out_of_range
check_addresses [] size = none
check_addresses (a ∷ rest) size =
    let later = check_addresses rest size in
    if ltb size (a + 4) then some (out_of_range a size) else later

module _ (backends : Backends) (wasi : Wasi backends) (runtime : Runtime wasi.Stubs)
    (quote : Bytes → Bytes) where
  open runtime use {guest, new_module, memory_size, set_max_memory, initialize, fresh_words}

  abbrev pub World' : Type 0
  World' = World guest

  -- `if err != nil { return nil, err }` after a step.
  unfoldable pub and_then : {A B : Type 0} → Result A × World' → (A → World' → Result B) → Result B
  and_then (ok a, w) f = f a w
  and_then (err e, w) f = err e

  -- The instance over a module that has just been made.
  abbrev pub blank : guest.State → World'
  blank s = record {
    py = record {
      h = 0;
      kbd_interrupt_obj = 0;
      closed = false;
      pending_rel = [];
      dispatcher_set = false;
      next_cb_id = 0;
      words = fresh_words;
    };
    state = s;
  }

  unfoldable pub py_new : Bytes → World' → Result ℕ × World'
  py_new stdlib_dir w =
      let (resp, w') = call guest mid_new (append_bytes [] 1 stdlib_dir) w in
      (number_result 64 (method_error resp), w')

  unfoldable pub addr_op : ℕ → World' → Result ℕ × World'
  addr_op mid w =
      let (resp, w') = call guest mid (append_uint64 [] 1 w.py.h) w in
      (number_result 32 (method_error resp), w')

  -- `p.h = h`, unless py_new failed.
  set_handle : Bytes → Result ℕ → World' → Result (Unit {0}) × World'
  set_handle stdlib_dir (err e) w = (err (wrapped (text "py_new: ") e), w)
  set_handle stdlib_dir (ok zero) w = (
    err (
        errorf (
          text "py_new returned 0 (interpreter init failed; check StdlibDir="
          ++ (quote stdlib_dir ++ text ")"))),
    w,
  )
  set_handle stdlib_dir (ok (suc h)) w = (ok tt, record w { py = record w.py { h = suc h } })

  initialized : Bytes → Option Bytes × guest.State → Result (Unit {0}) × World'
  unfolding set_handle
  initialized stdlib_dir (some panic, s) =
      (err (errorf (text "instance init panicked: " ++ panic)), blank s)
  initialized stdlib_dir (none, s) =
      let (r, w) = py_new stdlib_dir (blank s) in set_handle stdlib_dir r w

  capped : ℤ → guest.State → guest.State
  capped max s = elim (memory_cap max (memory_size s)) [
    | none ↦ s
    | some cap ↦ set_max_memory cap s
  ]

  unfoldable pub boot : InstanceOptions backends → wasi.Stubs → Result (Unit {0}) × World'
  unfolding initialized capped
  boot opts stubs = initialized opts.stdlib_dir (
      initialize
        (capped opts.max_memory_bytes (new_module stubs (positive opts.memory_reserve_bytes))))

  -- An instance that is ready: its world and the addresses of the interrupt words.
  pub record Started : Type 0 where
    pub world : World'
    pub async_exc_addr : ℕ
    pub breaker_addr : ℕ

  -- The end of New: the addresses are checked and kept.
  unfoldable pub finish : ℕ → ℕ → ℕ → World' → Result Started
  finish ae be ko w = elim (check_addresses (ae ∷ be ∷ []) (memory_size w.state)) [
    | some e ↦ err e
    | none ↦ ok (record {
      world = record w { py = record w.py { kbd_interrupt_obj = ko } };
      async_exc_addr = ae;
      breaker_addr = be;
    })
  ]

  resolved : Bytes → ℕ → World' → Result ℕ × World'
  resolved what mid w =
      let (r, w') = addr_op mid w in
      (map_error (wrapped (text "resolve " ++ (what ++ text ": "))) r, w')

  -- New
  unfoldable pub new : InstanceOptions backends → Result Started
  unfolding resolved
  new opts = and_then (boot opts (build_wasi backends wasi opts)) λ _ w.
      and_then (resolved (text "async_exc address") mid_async_exc_addr w) λ ae w1.
        and_then (resolved (text "eval_breaker address") mid_eval_breaker_addr w1) λ be w2.
          and_then (resolved (text "KeyboardInterrupt object") mid_keyboard_interrupt_obj w2)
            λ ko w3. finish ae be ko w3
