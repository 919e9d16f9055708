-- ===== src/Cli/Run.antt =====
-- Run and HostConfig of cli/cli.go: one invocation of the python command, to the report it ends with.
-- The host gives its files, filepath.Abs, os.Stat and os.Environ. What the guest does to the host while
-- it runs is not followed. `id` is the identity of the instance.
pub mod Closed
use go_python.Prelude.{
  ℕ, ℤ, pos, Bytes, text, Bool, true, false, Option, none, some, List, [], ◌∷◌, ◌++◌,
}
use go_python.Value.{Result, ok, err, Error, wrapped}
use go_python.Errors.{error_string}
use go_python.Fs.Path.{parent}
use go_python.Fs.Stdlib.{Member, MemFs, Os, extract_stdlib}
use go_python.Internal.Instance.{World, Context, close}
use go_python.Internal.Sandbox.{Backends, Wasi}
use go_python.Internal.Start.{Runtime}
use go_python.Launch.{Config, zero_config, EntriesCache, Instance, new}
use go_python.Session.{run_file, run_command}
use go_python.Cli.{
  Mode, mode_command, mode_file, Invocation, ArgsError, nothing_given, argument_expected,
  unsupported_option, Parsed, parsed, refused, parse_args, Report, report_run_error,
}

pub record Host : Type 1 where
  pub os : Os
  pub abs : Bytes → os.State → Result Bytes
  pub stat : Bytes → os.State → Option Error
  pub environ : os.State → List Bytes

-- context.Background()
abbrev pub background : Context
background = record { cancellable = false; entry_error = none; fires = false; late_error = none }

abbrev pub usage : Bytes
usage = text "usage: python [-c cmd | file] [arg] ..."

-- The line `python: …` on stderr.
abbrev pub python_line : Bytes → Bytes
python_line s = text "python: " ++ (s ++ 10 ∷ [])

module _ (quote : Bytes → Bytes) where
  unfoldable pub args_error_string : ArgsError → Bytes
  args_error_string nothing_given =
      text "no command or file given (interactive mode not supported yet)"
  args_error_string argument_expected = text "argument expected for the -c option"
  args_error_string (unsupported_option s) = text "unsupported option " ++ quote s

  unfoldable pub usage_report : ArgsError → Report
  usage_report e = record {
    written = python_line (args_error_string e) ++ (usage ++ 10 ∷ []);
    status = pos 2;
  }

  unfoldable pub cannot_open : Bytes → Error → Report
  cannot_open file e = record {
    written =
        python_line (text "can't open file " ++ (quote file ++ (text ": " ++ error_string e)));
    status = pos 2;
  }

abbrev pub failed_with : Error → Report
failed_with e = record { written = python_line (error_string e); status = pos 1 }

module _ (host : Host) where
  open host use {os, abs, stat, environ}

  -- The file of an invocation made absolute, if it can be.
  unfoldable pub resolve_file : Invocation → os.State → Invocation
  resolve_file inv s = elim (abs inv.file s) [ ok file ↦ record inv { file = file } | err e ↦ inv ]

  module _ (backends : Backends) (wasi : Wasi backends) (runtime : Runtime wasi.Stubs)
      (quote : Bytes → Bytes) (mem : MemFs) (as_fs : mem.State → backends.Fs)
      (zip : Result (List Member)) (host_fs : backends.Fs) (id : ℕ) where
    -- The process: the host's files, the directory that ExtractStdlib has cached, and the entries that
    -- loadStdlibEntries has.
    pub record Process : Type 0 where
      pub files : os.State
      pub stdlib_path : Option (Result Bytes)
      pub entries : EntriesCache backends wasi runtime quote mem as_fs zip

    -- How a run ends: what it reports, the process, and the instance, if one was started, as it is left.
    pub record Outcome : Type 0 where
      pub report : Report
      pub process : Process
      pub instance : Option (World runtime.guest)

    abbrev pub ended : Report → Process → Outcome
    ended report p = record { report = report; process = p; instance = none }

    -- HostConfig
    unfoldable pub host_config : Process → Result (Config backends) × Process
    host_config p =
        let (r, kept, files) = extract_stdlib os quote zip p.stdlib_path p.files in
        (
          elim r [
            | err e ↦ err (wrapped (text "extract embedded stdlib: ") e)
            | ok dir ↦ ok (record (zero_config backends) {
              fs = some host_fs;
              stdlib_dir = dir;
              dial = some (λ network name ip port. true);
              resolve = some (λ name. true);
              exec = some (λ path argv. true);
            })
          ],
          record p { files = files; stdlib_path = kept },
        )

    run_result : Result (Unit {0}) → Option Error
    run_result (ok _) = none
    run_result (err e) = some e

    run_mode : Invocation → World runtime.guest → Result (Unit {0}) × World runtime.guest
    run_mode inv w = elim inv.mode [
      | mode_command ↦ run_command runtime.guest id background inv.command inv.args w
      | mode_file ↦ run_file runtime.guest id background (parent inv.file) inv.file inv.args w
    ]

    -- The program of an invocation, and the deferred Close.
    unfoldable pub run_program : Invocation → Process → World runtime.guest → Outcome
    unfolding run_result run_mode
    run_program inv p w =
        let (r, w') = run_mode inv w in
        record {
          report = report_run_error (run_result r);
          process = p;
          instance = some (close runtime.guest w').1;
        }

    started :
        Invocation → Process → Result (Instance backends wasi runtime quote mem as_fs zip) → Outcome
    started inv p (err e) = ended (failed_with (wrapped (text "failed to start interpreter: ") e)) p
    started inv p (ok s) = run_program inv p s.world

    configured :
        Invocation
        → (os.State → Config backends → Config backends)
        → Result (Config backends) × Process
        → Outcome
    unfolding started
    configured inv streams (err e, p) = ended (failed_with e) p
    configured inv streams (ok cfg, p) =
        let (r, entries) =
          new backends wasi runtime quote mem as_fs zip (streams p.files cfg) p.entries in
        started inv (record p { entries = entries }) r

    -- The rest of Run, once the script of the invocation is there.
    unfoldable pub run_invocation :
        (os.State → Config backends → Config backends) → Invocation → Process → Outcome
    unfolding configured
    run_invocation streams inv p = configured inv streams (host_config p)

    run_checked :
        (os.State → Config backends → Config backends)
        → Invocation
        → Option Error
        → Process
        → Outcome
    run_checked streams inv (some e) p = ended (cannot_open quote inv.file e) p
    run_checked streams inv none p = run_invocation streams inv p

    run_in : (os.State → Config backends → Config backends) → Mode → Invocation → Process → Outcome
    unfolding run_checked
    run_in streams mode_command inv p = run_invocation streams inv p
    run_in streams mode_file inv p =
        let inv' = resolve_file inv p.files in run_checked streams inv' (stat inv'.file p.files) p

    run_parsed : (os.State → Config backends → Config backends) → Parsed → Process → Outcome
    unfolding run_in
    run_parsed streams (refused e) p = ended (usage_report quote e) p
    run_parsed streams (parsed inv) p = run_in streams inv.mode inv p

    -- The streams of the invocation and the host's environment.
    abbrev pub with_stdio :
        backends.Reader
        → backends.Writer
        → backends.Writer
        → os.State
        → Config backends
        → Config backends
    with_stdio stdin stdout stderr s cfg = record cfg {
      stdin = some stdin;
      stdout = some stdout;
      stderr = some stderr;
      env = environ s;
    }

    -- Run
    unfoldable pub run :
        List Bytes → backends.Reader → backends.Writer → backends.Writer → Process → Outcome
    unfolding run_parsed
    run args stdin stdout stderr p = run_parsed (with_stdio stdin stdout stderr) (parse_args args) p

    -- main of cmd/python/main.go, over os.Args and the process's streams: the status for os.Exit.
    unfoldable pub main :
        List Bytes → backends.Reader → backends.Writer → backends.Writer → Process → ℤ
    main args stdin stdout stderr p = (run args stdin stdout stderr p).report.status
