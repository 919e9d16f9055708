-- ===== src/Errors.antt =====
-- Errors as values: their texts (the Error methods of bridge.go and instance.go, and fmt.Errorf), and
-- what errors.As finds in a chain of them.
use go_python.Prelude.{ℤ, Bytes, text, itoa_ℤ, Option, none, some, [], ◌∷◌, ◌++◌}
use go_python.Value.{
  Error, errorf, wrapped, python_error, exit_error, wasi_exit, panic_error, canceled, closed,
  PythonError,
}

-- PythonError.Error
unfoldable pub python_error_string : PythonError → Bytes
python_error_string e = elim e.message [ [] ↦ e.type | _ ∷ _ ↦ e.type ++ (text ": " ++ e.message) ]

-- err.Error()
unfoldable pub error_string : Error → Bytes
unfolding python_error_string
error_string (errorf s) = s
error_string (wrapped prefix e) = prefix ++ error_string e
error_string (python_error e) = python_error_string e
error_string (exit_error code) = text "python: exit(" ++ (itoa_ℤ code ++ text ")")
error_string (wasi_exit code s) = s
error_string (panic_error s) = s
error_string canceled = text "context canceled"
error_string closed = text "python: instance is closed"

-- errors.As for each of the error types that the module asks for: the first in the chain.
unfoldable pub as_python_error : Error → Option PythonError
as_python_error (python_error e) = some e
as_python_error (wrapped prefix e) = as_python_error e
as_python_error _ = none

unfoldable pub as_exit_error : Error → Option ℤ
as_exit_error (exit_error code) = some code
as_exit_error (wrapped prefix e) = as_exit_error e
as_exit_error _ = none

unfoldable pub as_wasi_exit : Error → Option ℤ
as_wasi_exit (wasi_exit code s) = some code
as_wasi_exit (wrapped prefix e) = as_wasi_exit e
as_wasi_exit _ = none

-- WasiExitCode, and ExitCode of exit.go; `none` is (0, false).
unfoldable pub exit_code : Error → Option ℤ
unfolding as_exit_error as_wasi_exit
exit_code e = elim (as_exit_error e) [ some code ↦ some code | none ↦ as_wasi_exit e ]
