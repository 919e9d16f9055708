-- ===== src/Session/Closed.antt =====
-- Sequences of operations on a closed instance.
use go_python.Prelude.{ℕ, ◌≡◌, refl, Bytes, true, none, List, inr}
use go_python.Value.{err, closed as err_closed}
use go_python.Internal.Instance.{Guest, World, Context}
use go_python.Internal.Closing.{value_op-refused}
use go_python.Object.{respond}
use go_python.Session.{answered, import, add_path, run_file, run_command, ◌>>=◌}

module _ (guest : Guest) (ctx : Context) (w : World guest) (live : ctx.entry_error ≡ none)
    (shut : w.py.closed ≡ true) where
  import-closed : (p : ℕ) (name : Bytes) → import guest p ctx name w ≡ (err err_closed, w)
  unfolding import answered ◌>>=◌ respond go_python.Internal.Ops.import_op
  import-closed p name = rw (value_op-refused guest ctx _ _ w err_closed (inr (live, shut, refl)))

  -- Under a context that is not done, running a file or a command on a closed instance is refused with
  -- ErrClosed at the first step, and nothing changes.
  pub run-closed :
      (p : ℕ) (dir path command : Bytes) (args : List Bytes)
      → (run_file guest p ctx dir path args w ≡ (err err_closed, w))
        × (run_command guest p ctx command args w ≡ (err err_closed, w))
  unfolding run_file run_command add_path ◌>>=◌
  run-closed p dir path command args = (rw (import-closed p _), rw (import-closed p _))
