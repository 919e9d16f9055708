-- ===== src/Launch.antt =====
-- New of python.go, from the Config of config.go. The runtime's file system interface is `backends.Fs`:
-- `as_fs` is a MemFS as such a value.
pub mod Sandboxed
use go_python.Prelude.{ℤ, pos, Bytes, text, Option, none, some, List, [], ◌∷◌}
use go_python.Value.{Result, ok, err, Error, wrapped}
use go_python.Fs.Stdlib.{Member, StdlibEntry, MemFs, new_stdlib_mem_fs}
use go_python.Internal.Sandbox.{Backends, Wasi, InstanceOptions, DialHook, ResolveHook, ExecHook}
use go_python.Internal.Start
use go_python.Internal.Start.{Runtime, Started}

module _ (backends : Backends) where
  open backends use {Fs, Reader, Writer}

  -- Config; `none` is nil. Its zero value is `zero_config`.
  pub record Config : Type 0 where
    pub stdlib_dir : Bytes
    pub env : List Bytes
    pub dial : Option DialHook
    pub resolve : Option ResolveHook
    pub stdin : Option Reader
    pub stdout : Option Writer
    pub stderr : Option Writer
    pub max_memory_bytes : ℤ
    pub memory_reserve_bytes : ℤ
    pub exec : Option ExecHook
    pub fs : Option Fs

  abbrev pub zero_config : Config
  zero_config = record {
    stdlib_dir = [];
    env = [];
    dial = none;
    resolve = none;
    stdin = none;
    stdout = none;
    stderr = none;
    max_memory_bytes = pos 0;
    memory_reserve_bytes = pos 0;
    exec = none;
    fs = none;
  }

  abbrev pub root_if_empty : Bytes → Bytes
  root_if_empty [] = text "/"
  root_if_empty (c ∷ dir) = c ∷ dir

  -- The InstanceOptions that New makes of a Config on a file system.
  unfoldable pub instance_options : Config → Fs → InstanceOptions backends
  instance_options cfg fs = record {
    stdlib_dir = root_if_empty cfg.stdlib_dir;
    env = cfg.env;
    fs = some fs;
    dial = cfg.dial;
    resolve = cfg.resolve;
    exec = cfg.exec;
    stdin = cfg.stdin;
    stdout = cfg.stdout;
    stderr = cfg.stderr;
    max_memory_bytes = cfg.max_memory_bytes;
    memory_reserve_bytes = cfg.memory_reserve_bytes;
  }

  module _ (wasi : Wasi backends) (runtime : Runtime wasi.Stubs) (quote : Bytes → Bytes)
      (mem : MemFs) (as_fs : mem.State → Fs) (zip : Result (List Member)) where
    -- What loadStdlibEntries has cached, if it has run.
    abbrev pub EntriesCache : Type 0
    EntriesCache = Option (Result (List StdlibEntry))

    abbrev pub Instance : Type 0
    Instance = Started backends wasi runtime quote

    new_on : Config → Result mem.State → Result Instance
    new_on cfg (err e) = err (wrapped (text "build in-memory stdlib: ") e)
    new_on cfg (ok fsys) = Start.new backends wasi runtime quote (instance_options cfg (as_fs fsys))

    -- The default file system is made only when there is none.
    new_with : Config → Option Fs → EntriesCache → Result Instance × EntriesCache
    unfolding new_on
    new_with cfg (some fs) cache =
        (Start.new backends wasi runtime quote (instance_options cfg fs), cache)
    new_with cfg none cache =
        let (fsys, cache') = new_stdlib_mem_fs mem zip cache in (new_on cfg fsys, cache')

    -- New
    unfoldable pub new : Config → EntriesCache → Result Instance × EntriesCache
    unfolding new_with
    new cfg cache = new_with cfg cfg.fs cache
