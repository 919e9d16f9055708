-- ===== src/Internal/Global.antt =====
-- The process-wide module of internal/python.go: Init, InitWith and what reads it. The wasm runtime is the
-- interface of Internal/Start; a panic stands as `none`.
use go_python.Prelude.{
  ◌++◌, ℕ, zero, suc, Bytes, text, Bool, true, false, Option, none, some, List, [], ◌∷◌,
  if◌then◌else◌, ℤ, pos, ◌≡◌, refl, map,
}
use go_python.Value.{panic_error, err, ok, Result, Error, errorf}
use go_python.Internal.Start.{Runtime, positive}

-- Options: a nil WASI is `none`.
pub record Options (Stubs : Type 0) : Type 0 where
  pub wasi : Option Stubs
  pub memory_reserve_bytes : ℤ
  pub max_memory_bytes : ℕ

module _ {Stubs : Type 0} (runtime : Runtime Stubs) (default_wasi : Stubs) where
  open runtime use {guest, new_module, set_max_memory, initialize}

  -- The variables globalModule, initErr and, of initOnce, whether it has run.
  pub record Global : Type 0 where
    pub global_module : Option guest.State
    pub init_err : Option Error
    pub init_once : Bool

  stubs_of : Option Stubs → Stubs
  stubs_of none = default_wasi
  stubs_of (some wasi) = wasi

  with_cap : ℕ → guest.State → guest.State
  with_cap zero m = m
  with_cap (suc n) m = set_max_memory (suc n) m

  -- The deferred recover.
  recovered : Option Bytes → Option Error
  recovered none = none
  recovered (some r) = some (errorf (text "init panicked: " ++ r))

  -- initModule: the error, and the module, which is set before the initializers run.
  unfoldable pub init_module : Options Stubs → Option Error × guest.State
  unfolding stubs_of with_cap recovered
  init_module opts =
      let m = new_module (stubs_of opts.wasi) (positive opts.memory_reserve_bytes) in
      let (panic, m') = initialize (with_cap opts.max_memory_bytes m) in (recovered panic, m')

  -- InitWith: initOnce.Do, and the first result.
  unfoldable pub init_with : Options Stubs → Global → Option Error × Global
  init_with opts g =
      let (e, m) = init_module opts in
      if g.init_once
      then (g.init_err, g)
      else (e, record { global_module = some m; init_err = e; init_once = true })

  -- Init
  unfoldable pub init : Global → Option Error × Global
  init g = init_with (record { wasi = none; memory_reserve_bytes = pos 0; max_memory_bytes = 0 }) g

  -- module: it panics before initialization.
  unfoldable pub module_of : Global → Result guest.State
  module_of g = elim g.global_module [
    | none ↦ err (panic_error (text "wasmify: Init() must be called before using any API"))
    | some m ↦ ok m
  ]

  -- Instance: nil before initialization.
  unfoldable pub instance_of : Global → Option guest.State
  instance_of g = g.global_module

  -- The variables as the process starts.
  abbrev pub fresh : Global
  fresh = record { global_module = none; init_err = none; init_once = false }

  -- A call of the API: Init or InitWith. The calls of all goroutines are one at a time, as sync.Once
  -- makes them.
  pub data InitCall : Type 0 where
    init_call : InitCall
    init_with_call : Options Stubs → InitCall

  abbrev pub initialize_by : InitCall → Global → Option Error × Global
  initialize_by init_call g = init g
  initialize_by (init_with_call opts) g = init_with opts g

  abbrev pub options_of : InitCall → Options Stubs
  options_of init_call = record { wasi = none; memory_reserve_bytes = pos 0; max_memory_bytes = 0 }
  options_of (init_with_call opts) = opts

  -- The results of a sequence of calls, and the variables afterwards.
  abbrev pub run_calls : List InitCall → Global → List (Option Error) × Global
  run_calls [] g = ([], g)
  run_calls (c ∷ cs) g =
      let (e, g') = initialize_by c g in let (es, g'') = run_calls cs g' in (e ∷ es, g'')

  again : (c : InitCall) (g : Global) → g.init_once ≡ true → initialize_by c g ≡ (g.init_err, g)
  unfolding init init_with
  again init_call g done = rw done refl
  again (init_with_call opts) g done = rw done refl

  run_calls-done :
      (cs : List InitCall) (g : Global)
      → g.init_once ≡ true
      → run_calls cs g ≡ (map (λ c. g.init_err) cs, g)
  run_calls-done [] g done = refl
  run_calls-done (c ∷ cs) g done = rw (again c g done) (rw (run_calls-done cs g done) refl)

  abbrev after_first : InitCall → Global
  after_first c = record {
    global_module = some (init_module (options_of c)).1;
    init_err = (init_module (options_of c)).0;
    init_once = true;
  }

  initialize_by-fresh :
      (c : InitCall) → initialize_by c fresh ≡ ((init_module (options_of c)).0, after_first c)
  unfolding init init_with
  initialize_by-fresh init_call = refl
  initialize_by-fresh (init_with_call opts) = refl

  -- The process has one module, that of the first call: however many calls of Init and InitWith follow,
  -- with whatever options, each of them returns the first call's result, nothing is initialized again, and
  -- the API runs on the module that the first call's options made, also if its initializers panicked and
  -- every call returns that error.
  pub run_calls-once :
      (c : InitCall) (cs : List InitCall)
      → let (es, g) = run_calls (c ∷ cs) fresh in
        (es ≡ map (λ d. (init_module (options_of c)).0) (c ∷ cs))
        × (module_of g ≡ ok (init_module (options_of c)).1)
        × (instance_of g ≡ some (init_module (options_of c)).1)
  unfolding module_of instance_of
  run_calls-once c cs =
      rw (initialize_by-fresh c) (rw (run_calls-done cs (after_first c) refl) (refl, refl, refl))
