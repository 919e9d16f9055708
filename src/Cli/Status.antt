-- ===== src/Cli/Status.antt =====
-- The exit status of a run and what is written to stderr.
use go_python.Prelude.{
  subst, sym, append_assoc, ◌≡◌, refl, ℤ, pos, Bytes, text, true, Option, none, some, List, [], ◌∷◌,
  ◌++◌, Bool-cases, inl, inr,
}
use go_python.Value.{wrapped, exit_error, Error, PythonError}
use go_python.Errors.{exit_code, as_exit_error, as_python_error, error_string}
use go_python.Cli.{
  failed, exited, report_run_error, ends_with_newline, with_newline, traceback_text,
}

abbrev pub wrap_all : List Bytes → Error → Error
wrap_all [] e = e
wrap_all (s ∷ rest) e = wrapped s (wrap_all rest e)

as_exit_error-wrap_all :
    (code : ℤ) (prefixes : List Bytes)
    → as_exit_error (wrap_all prefixes (exit_error code)) ≡ some code
unfolding as_exit_error
as_exit_error-wrap_all code [] = refl
as_exit_error-wrap_all code (s ∷ rest) = as_exit_error-wrap_all code rest

exit_code-wrap_all :
    (code : ℤ) (prefixes : List Bytes) → exit_code (wrap_all prefixes (exit_error code)) ≡ some code
unfolding exit_code
exit_code-wrap_all code prefixes = rw (as_exit_error-wrap_all code prefixes, exit_code)

ends-append : (s : Bytes) → ends_with_newline (s ++ 10 ∷ []) ≡ true
unfolding ends_with_newline
ends-append [] = refl
ends-append (c ∷ []) = refl
ends-append (c ∷ d ∷ s) = ends-append (d ∷ s)

ends-with_newline : (s : Bytes) → ends_with_newline (with_newline s) ≡ true
unfolding with_newline
ends-with_newline s = elim (Bool-cases (ends_with_newline s)) [
  | inl e ↦ rw e e
  | inr e ↦ rw e (ends-append s)
]

failed-line :
    (e : Error) (o : Option PythonError)
    → ((failed e o).status ≡ pos 1) × (ends_with_newline (failed e o).written ≡ true)
unfolding failed
failed-line e (some pe) = (refl, ends-with_newline (traceback_text pe))
failed-line e none =
    (refl, rw (sym (append_assoc (text "python: ") (error_string e) (10 ∷ []))) (ends-append _))

-- A run that fails, but not by the guest's own exit, has status 1, and what is written to stderr ends
-- a line.
pub report_run_error-failed :
    (e : Error)
    → exit_code e ≡ none
    → ((report_run_error (some e)).status ≡ pos 1)
      × (ends_with_newline (report_run_error (some e)).written ≡ true)
unfolding report_run_error
report_run_error-failed e n =
    subst (λ o. ((exited e o).status ≡ pos 1) × (ends_with_newline (exited e o).written ≡ true))
      (sym n) (failed-line e (as_python_error e))

-- The exit status of a guest that exits is the status of the run, whatever context the error was
-- wrapped in on its way up, and nothing is written.
pub report_run_error-exit :
    (code : ℤ) (prefixes : List Bytes)
    → report_run_error (some (wrap_all prefixes (exit_error code)))
      ≡ record { written = []; status = code }
unfolding report_run_error exit_code
report_run_error-exit code prefixes =
    subst
      (λ o. exited (wrap_all prefixes (exit_error code)) o ≡ record { written = []; status = code })
      (sym (exit_code-wrap_all code prefixes)) refl
