-- ===== src/Launch/Sandboxed.antt =====
-- What New makes of a Config.
use go_python.Prelude.{◌≡◌, ◌⊎◌, Bytes, Option, none, some, List}
use go_python.Value.{Result, ok}
use go_python.Fs.Stdlib.{Member, MemFs, new_stdlib_mem_fs}
use go_python.Internal.Sandbox.{Backends, Wasi}
use go_python.Internal.Start
use go_python.Internal.Start.{Runtime}
use go_python.Launch.{EntriesCache}

module _ (backends : Backends) (wasi : Wasi backends) (runtime : Runtime wasi.Stubs)
    (quote : Bytes → Bytes) (mem : MemFs) (as_fs : mem.State → backends.Fs)
    (zip : Result (List Member)) where
  -- The file system of an instance: the one that is given, or one of its own with the standard library.
  abbrev pub Serves :
      Option backends.Fs
      → EntriesCache backends wasi runtime quote mem as_fs zip
      → backends.Fs
      → Type 0
  Serves given cache fs =
      (given ≡ some fs)
      ⊎ ((given ≡ none)
          × ((fsys : mem.State) × ((new_stdlib_mem_fs mem zip cache).0 ≡ ok fsys)
              × (fs ≡ as_fs fsys)))
