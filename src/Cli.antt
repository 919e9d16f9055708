-- ===== src/Cli.antt =====
-- The command line of cli/cli.go: parseArgs, runCommand's argv, and the exit status of a run.
pub mod Parse
pub mod Status
pub mod Run
use go_python.Prelude.{
  same, has_prefix, ℕ, zero, suc, ◌≡◌, refl, ℤ, pos, Bytes, text, Bool, true, false, ◌&&◌, not,
  Option, none, some, List, [], ◌∷◌, ◌++◌, ◌==◌, if◌then◌else◌, drop,
}
use go_python.Value.{Result, ok, err, Error, errorf, PythonError}
use go_python.Errors.{error_string, as_python_error, exit_code, python_error_string}

-- "-c" and "-", as bytes.
abbrev pub dash_c : Bytes
dash_c = 45 ∷ 99 ∷ []

abbrev pub dash : Bytes
dash = 45 ∷ []

pub data Mode : Type 0 where
  mode_command mode_file : Mode

pub record Invocation : Type 0 where
  pub mode : Mode
  pub command : Bytes
  pub file : Bytes
  pub args : List Bytes

-- What parseArgs reports. `unsupported_option` carries the option that %q quotes.
pub data ArgsError : Type 0 where
  nothing_given argument_expected : ArgsError
  unsupported_option : Bytes → ArgsError

pub data Parsed : Type 0 where
  parsed : Invocation → Parsed
  refused : ArgsError → Parsed

abbrev pub command_invocation : Bytes → List Bytes → Invocation
command_invocation c args = record { mode = mode_command; command = c; file = []; args = args }

abbrev pub file_invocation : Bytes → List Bytes → Invocation
file_invocation f args = record { mode = mode_file; command = []; file = f; args = args }

-- The case of a separate -c.
unfoldable pub separate : List Bytes → Parsed
separate [] = refused argument_expected
separate (c ∷ args) = parsed (command_invocation c args)

unfoldable pub parse_rest : List Bytes → Parsed
unfolding separate
parse_rest [] = refused nothing_given
parse_rest (first ∷ rest) =
    if same first dash_c
    then separate rest
    else if has_prefix first dash_c
    then parsed (command_invocation (drop 2 first) rest)
    else if has_prefix first dash
    then refused (unsupported_option first)
    else parsed (file_invocation first rest)

-- parseArgs: argv[0] is dropped if there is one.
unfoldable pub parse_args : List Bytes → Parsed
unfolding parse_rest
parse_args [] = parse_rest []
parse_args (program ∷ rest) = parse_rest rest

-- What reportRunError writes to stderr, and the exit status.
pub record Report : Type 0 where
  pub written : Bytes
  pub status : ℤ

unfoldable pub ends_with_newline : Bytes → Bool
ends_with_newline [] = false
ends_with_newline (c ∷ []) = c == 10
ends_with_newline (c ∷ d ∷ s) = ends_with_newline (d ∷ s)

unfoldable pub with_newline : Bytes → Bytes
unfolding ends_with_newline
with_newline s = if ends_with_newline s then s else s ++ 10 ∷ []

unfoldable pub traceback_text : PythonError → Bytes
traceback_text pe = elim pe.traceback [ [] ↦ python_error_string pe | _ ∷ _ ↦ pe.traceback ]

failed : Error → Option PythonError → Report
failed e (some pe) = record { written = with_newline (traceback_text pe); status = pos 1 }
failed e none = record { written = text "python: " ++ (error_string e ++ 10 ∷ []); status = pos 1 }

exited : Error → Option ℤ → Report
unfolding failed
exited e (some code) = record { written = []; status = code }
exited e none = failed e (as_python_error e)

-- reportRunError; `none` is a nil error.
unfoldable pub report_run_error : Option Error → Report
unfolding exited
report_run_error none = record { written = []; status = pos 0 }
report_run_error (some e) = exited e (exit_code e)
