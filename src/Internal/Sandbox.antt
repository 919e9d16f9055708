-- ===== src/Internal/Sandbox.antt =====
-- buildWASI of instance.go: the WASI host of an instance from its options. The host's setters are the
-- runtime's, an interface with the laws that each of them replaces its one setting.
use go_python.Prelude.{ℕ, ℤ, ◌≡◌, refl, Bytes, Bool, false, Option, none, some, List}

abbrev pub DialHook : Type 0
DialHook = Bytes → Bytes → Bytes → ℕ → Bool

abbrev pub ResolveHook : Type 0
ResolveHook = Bytes → Bool

abbrev pub ExecHook : Type 0
ExecHook = Bytes → List Bytes → Bool

-- The types of the runtime's file systems and of Go's streams, with `bytes.NewReader(nil)` and
-- `io.Discard`.
pub record Backends : Type 1 where
  pub Fs : Type 0
  pub Reader : Type 0
  pub Writer : Type 0
  pub empty_reader : Reader
  pub discard : Writer

module _ (backends : Backends) where
  open backends use {Fs, Reader, Writer, empty_reader, discard}

  -- What a WASI host is set to. A hook or a stream that is not set, as the runtime starts, is `none`.
  pub record Settings : Type 0 where
    pub env : List Bytes
    pub fs : Option Fs
    pub dial : Option DialHook
    pub resolve : Option ResolveHook
    pub exec : Option ExecHook
    pub stdin : Option Reader
    pub stdout : Option Writer
    pub stderr : Option Writer

  -- base.WasiStubs
  pub record Wasi : Type 1 where
    pub Stubs : Type 0
    pub default_wasi : Stubs
    pub set_env : List Bytes → Stubs → Stubs
    pub set_fs : Fs → Stubs → Stubs
    pub set_dial_hook : DialHook → Stubs → Stubs
    pub set_resolve_hook : ResolveHook → Stubs → Stubs
    pub set_exec_hook : ExecHook → Stubs → Stubs
    pub set_stdin : Reader → Stubs → Stubs
    pub set_stdout : Writer → Stubs → Stubs
    pub set_stderr : Writer → Stubs → Stubs
    pub settings : Stubs → Settings

  pub record IsLawful (wasi : Wasi) : Type 0 where
    pub env_set :
        (x : List Bytes) (s : wasi.Stubs)
        → wasi.settings (wasi.set_env x s) ≡ record (wasi.settings s) { env = x }
    pub fs_set :
        (x : Fs) (s : wasi.Stubs)
        → wasi.settings (wasi.set_fs x s) ≡ record (wasi.settings s) { fs = some x }
    pub dial_set :
        (x : DialHook) (s : wasi.Stubs)
        → wasi.settings (wasi.set_dial_hook x s) ≡ record (wasi.settings s) { dial = some x }
    pub resolve_set :
        (x : ResolveHook) (s : wasi.Stubs)
        → wasi.settings (wasi.set_resolve_hook x s) ≡ record (wasi.settings s) { resolve = some x }
    pub exec_set :
        (x : ExecHook) (s : wasi.Stubs)
        → wasi.settings (wasi.set_exec_hook x s) ≡ record (wasi.settings s) { exec = some x }
    pub stdin_set :
        (x : Reader) (s : wasi.Stubs)
        → wasi.settings (wasi.set_stdin x s) ≡ record (wasi.settings s) { stdin = some x }
    pub stdout_set :
        (x : Writer) (s : wasi.Stubs)
        → wasi.settings (wasi.set_stdout x s) ≡ record (wasi.settings s) { stdout = some x }
    pub stderr_set :
        (x : Writer) (s : wasi.Stubs)
        → wasi.settings (wasi.set_stderr x s) ≡ record (wasi.settings s) { stderr = some x }

  -- InstanceOptions; `none` is nil.
  pub record InstanceOptions : Type 0 where
    pub stdlib_dir : Bytes
    pub env : List Bytes
    pub fs : Option Fs
    pub dial : Option DialHook
    pub resolve : Option ResolveHook
    pub exec : Option ExecHook
    pub stdin : Option Reader
    pub stdout : Option Writer
    pub stderr : Option Writer
    pub max_memory_bytes : ℤ
    pub memory_reserve_bytes : ℤ

  -- `if x == nil { x = default }`
  abbrev pub or_default : {A : Type 0} → Option A → A → A
  or_default none a = a
  or_default (some x) a = x

  abbrev pub or_kept : {A : Type 0} → Option A → Option A → Option A
  or_kept none kept = kept
  or_kept (some x) kept = some x

  -- The hooks that deny all.
  abbrev pub deny_dial : DialHook
  deny_dial network host ip port = false

  abbrev pub deny_resolve : ResolveHook
  deny_resolve host = false

  abbrev pub deny_exec : ExecHook
  deny_exec path argv = false

  module _ (wasi : Wasi) where
    open wasi use {
      Stubs, default_wasi, set_env, set_fs, set_dial_hook, set_resolve_hook, set_exec_hook,
      set_stdin, set_stdout, set_stderr, settings,
    }

    set_fs_if : Option Fs → Stubs → Stubs
    set_fs_if none s = s
    set_fs_if (some fs) s = set_fs fs s

    unfoldable pub build_wasi : InstanceOptions → Stubs
    unfolding set_fs_if
    build_wasi opts =
        let s1 = set_fs_if opts.fs (set_env opts.env default_wasi) in
        let s2 = set_dial_hook (or_default opts.dial deny_dial) s1 in
        let s3 = set_resolve_hook (or_default opts.resolve deny_resolve) s2 in
        let s4 = set_exec_hook (or_default opts.exec deny_exec) s3 in
        let s5 = set_stdin (or_default opts.stdin empty_reader) s4 in
        let s6 = set_stdout (or_default opts.stdout discard) s5 in
        set_stderr (or_default opts.stderr discard) s6

    -- What the options make of the settings that the runtime starts with.
    abbrev pub sandboxed : InstanceOptions → Settings
    sandboxed opts = record {
      env = opts.env;
      fs = or_kept opts.fs (settings default_wasi).fs;
      dial = some (or_default opts.dial deny_dial);
      resolve = some (or_default opts.resolve deny_resolve);
      exec = some (or_default opts.exec deny_exec);
      stdin = some (or_default opts.stdin empty_reader);
      stdout = some (or_default opts.stdout discard);
      stderr = some (or_default opts.stderr discard);
    }

    fs_if_set :
        IsLawful wasi
        → (x : Option Fs) (s : Stubs)
        → settings (set_fs_if x s) ≡ record (settings s) { fs = or_kept x (settings s).fs }
    unfolding set_fs_if
    fs_if_set law none s = refl
    fs_if_set law (some x) s = law.fs_set x s

    -- The sandbox fails closed: on a host whose setters replace each its own setting, every hook and
    -- every stream of the instance is set. A hook of the options is installed as it is and a nil one
    -- denies all, a nil stream is empty or discards, and the environment is the one of the options,
    -- whatever the runtime starts with; only a nil file system leaves the runtime's.
    pub settings-build_wasi :
        IsLawful wasi → (opts : InstanceOptions) → settings (build_wasi opts) ≡ sandboxed opts
    unfolding build_wasi
    settings-build_wasi law opts = simp (
      law.stderr_set,
      law.stdout_set,
      law.stdin_set,
      law.exec_set,
      law.resolve_set,
      law.dial_set,
      fs_if_set law,
      law.env_set,
    )
