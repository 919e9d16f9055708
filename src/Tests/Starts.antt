-- ===== src/Tests/Starts.antt =====
-- The theorems on the start of an instance and on the python command at concrete inputs.
use go_python.Prelude.{ℕ, ◌+◌, ◌≤◌, ◌≡◌, refl, pos, Bytes, text, false, none, some, List, [], ◌∷◌}
use go_python.Value.{Result, ok, errorf}
use go_python.Fs.Stdlib.{MemFs, Os, Member}
use go_python.Internal.Instance.{Guest}
use go_python.Internal.Sandbox.{Backends, Wasi, Settings, build_wasi, sandboxed}
use go_python.Internal.Start
use go_python.Internal.Global
use go_python.Internal.Global.{
  Global, init_call, init_with_call, run_calls, run_calls-once, init_module, module_of, instance_of,
  options_of, fresh,
}
use go_python.Internal.Start.{Runtime, Started, wasm_page, memory_cap}
use go_python.Internal.Start.Ready.{IsLive, new-IsLive}
use go_python.Launch
use go_python.Launch.{Config, zero_config, instance_options}
use go_python.Cli.Run.{Host, Process}

abbrev backends : Backends
backends = record { Fs = ℕ; Reader = Unit {0}; Writer = Unit {0}; empty_reader = tt; discard = tt }

-- A host that is its own settings.
abbrev wasi : Wasi backends
wasi = record {
  Stubs = Settings backends;
  default_wasi = record {
    env = text "HOME=/root" ∷ [];
    fs = none;
    dial = none;
    resolve = none;
    exec = none;
    stdin = none;
    stdout = none;
    stderr = none;
  };
  set_env = λ x s. record s { env = x };
  set_fs = λ x s. record s { fs = some x };
  set_dial_hook = λ x s. record s { dial = some x };
  set_resolve_hook = λ x s. record s { resolve = some x };
  set_exec_hook = λ x s. record s { exec = some x };
  set_stdin = λ x s. record s { stdin = some x };
  set_stdout = λ x s. record s { stdout = some x };
  set_stderr = λ x s. record s { stderr = some x };
  settings = λ s. s;
}

-- A guest that answers each call with the number 1 in field 1.
abbrev one_guest : Guest
one_guest = record {
  State = Settings backends × ℕ;
  invoke = λ s mid buf store words. (ok (8 ∷ 1 ∷ []), (s.0, s.1 + 1), words);
}

abbrev runtime : Runtime wasi.Stubs
runtime = record {
  guest = one_guest;
  new_module = λ stubs reserve. (stubs, 0);
  memory_size = λ s. 65536;
  set_max_memory = λ cap s. s;
  initialize = λ s. (none, s);
  fresh_words = record { async_exc = 0; breaker = 0 };
}

abbrev quote : Bytes → Bytes
quote s = s

abbrev mem : MemFs
mem = record {
  State = ℕ;
  new_mem_fs = 0;
  mkdir_all = λ path mode s. ok (s + 1);
  write_file = λ path bytes mode s. ok (s + 1);
}

abbrev zip : Result (List Member)
zip = ok []

abbrev started_instance : Started backends wasi runtime quote
started_instance = record {
  world = record {
    py = record {
      h = 1;
      kbd_interrupt_obj = 1;
      closed = false;
      pending_rel = [];
      dispatcher_set = false;
      next_cb_id = 0;
      words = record { async_exc = 0; breaker = 0 };
    };
    state = (sandboxed backends wasi (instance_options backends (zero_config backends) 0), 4);
  };
  async_exc_addr = 1;
  breaker_addr = 1;
}

new-starts :
    Start.new backends wasi runtime quote (instance_options backends (zero_config backends) 0)
    ≡ ok started_instance
unfolding Start.new Start.boot memory_cap Start.py_new Start.addr_op Start.and_then Start.finish
    Start.check_addresses go_python.Internal.Instance.call go_python.Internal.Exports.number_result
    go_python.Internal.Exports.method_error go_python.Internal.Proto.read_scalar_at_field
    go_python.Internal.Proto.or_zero go_python.Internal.Proto.only go_python.Internal.Proto.scan
    go_python.Internal.Proto.extract_error go_python.Internal.Proto.next
    go_python.Internal.Proto.skip go_python.Internal.Proto.read_varint
    go_python.Internal.Proto.read_varint_loop instance_options build_wasi
new-starts = refl

new-IsLive_example :
    IsLive backends wasi runtime quote started_instance.world × (1 + 4 ≤ 65536) × (1 + 4 ≤ 65536)
new-IsLive_example =
    new-IsLive backends wasi runtime quote (instance_options backends (zero_config backends) 0)
      started_instance new-starts

-- A host on which no file is found.
abbrev host : Host
host = record {
  os = record {
    State = ℕ;
    File = ℕ;
    mkdir_temp = λ dir pattern s. (ok (text "/tmp/x"), s + 1);
    mkdir_all = λ path mode s. (none, s + 1);
    create = λ path mode s. (ok 0, s + 1);
    copy = λ f c s. (none, s + 1);
    close = λ f s. (none, s + 1);
  };
  abs = λ path s. ok path;
  stat = λ path s. some (errorf (text "no such file"));
  environ = λ s. [];
}

abbrev process : Process host backends wasi runtime quote mem (λ s. s) zip 3 7
process = record { files = 0; stdlib_path = none; entries = none }

abbrev command : List Bytes
command = text "python" ∷ text "-c" ∷ text "pass" ∷ []

-- A runtime whose initializers panic.
abbrev panicking : Runtime (Settings backends)
panicking = record runtime { initialize = λ s. (some (text "boom"), (s.0, s.1 + 1)) }

abbrev capped_options : Global.Options (Settings backends)
capped_options = record { wasi = none; memory_reserve_bytes = pos 0; max_memory_bytes = 1 }

run_calls-once_example :
    ((run_calls panicking wasi.default_wasi
        (init_call ∷ init_with_call capped_options ∷ [])
        (fresh panicking wasi.default_wasi)).0
      ≡ some (errorf (text "init panicked: boom"))
        ∷ some (errorf (text "init panicked: boom"))
        ∷ [])
    × (module_of panicking wasi.default_wasi
          (run_calls panicking wasi.default_wasi
            (init_call ∷ init_with_call capped_options ∷ [])
            (fresh panicking wasi.default_wasi)).1
        ≡ ok (wasi.default_wasi, 1))
    × (instance_of panicking wasi.default_wasi
          (run_calls panicking wasi.default_wasi
            (init_call ∷ init_with_call capped_options ∷ [])
            (fresh panicking wasi.default_wasi)).1
        ≡ some (wasi.default_wasi, 1))
unfolding init_module text
run_calls-once_example =
    run_calls-once panicking wasi.default_wasi init_call (init_with_call capped_options ∷ [])
