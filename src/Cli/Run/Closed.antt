-- ===== src/Cli/Run/Closed.antt =====
-- How a run of the python command ends.
use go_python.Prelude.{ℕ, ◌≡◌, ◌⊎◌, pos, Bytes, true, none, some, List}
use go_python.Value.{Result, Error}
use go_python.Fs.Stdlib.{Member, MemFs}
use go_python.Internal.Instance.{World}
use go_python.Internal.Sandbox.{Backends, Wasi}
use go_python.Internal.Start.{Runtime}
use go_python.Launch.{Instance}
use go_python.Cli.{mode_file, Parsed, parsed, refused}
use go_python.Cli.Run.{Host, resolve_file, Process, Outcome}

module _ (host : Host) (backends : Backends) (wasi : Wasi backends) (runtime : Runtime wasi.Stubs)
    (quote : Bytes → Bytes) (mem : MemFs) (as_fs : mem.State → backends.Fs)
    (zip : Result (List Member)) (host_fs : backends.Fs) (id : ℕ) where
  abbrev pub Process' : Type 0
  Process' = Process host backends wasi runtime quote mem as_fs zip host_fs id

  abbrev pub Outcome' : Type 0
  Outcome' = Outcome host backends wasi runtime quote mem as_fs zip host_fs id

  -- Nothing can be run: the command line is wrong, or its script cannot be opened.
  abbrev pub Unusable : Parsed → Process' → Type 0
  Unusable (refused e) p = Unit {0}
  Unusable (parsed inv) p =
      (inv.mode ≡ mode_file)
      × ((e : Error) × (host.stat (resolve_file host inv p.files).file p.files ≡ some e))

  -- The process is left as it is, and the status is 2.
  abbrev pub IsRefusal : Process' → Outcome' → Type 0
  IsRefusal p o = (o.instance ≡ none) × (o.process ≡ p) × (o.report.status ≡ pos 2)

  abbrev pub IsFailedStart : Outcome' → Type 0
  IsFailedStart o = (o.instance ≡ none) × (o.report.status ≡ pos 1)

  abbrev pub IsClosedRun : Outcome' → Type 0
  IsClosedRun o = (w : World runtime.guest) × (o.instance ≡ some w) × (w.py.closed ≡ true)

  -- A start that failed, or a run that was closed.
  abbrev pub IsStart : Outcome' → Type 0
  IsStart o = IsFailedStart o ⊎ IsClosedRun o
