-- ===== src/Cli/Parse.antt =====
-- What parseArgs accepts.
use go_python.Prelude.{same, has_prefix, ◌≡◌, refl, Bytes, false, List, [], ◌∷◌, ◌++◌, arith, ◌≢◌}
use go_python.Cli.{dash_c, dash, parsed, command_invocation, file_invocation, parse_args}

attached :
    (program c : Bytes) (args : List Bytes)
    → c ≢ []
    → parse_args (program ∷ (dash_c ++ c) ∷ args) ≡ parse_args (program ∷ dash_c ∷ c ∷ args)
unfolding parse_args same has_prefix
attached program [] args h = absurd (h refl)
attached program (x ∷ c) args h = refl

file-parsed :
    (program f : Bytes) (args : List Bytes)
    → has_prefix f dash ≡ false
    → parse_args (program ∷ f ∷ args) ≡ parsed (file_invocation f args)
unfolding parse_args same has_prefix
file-parsed program [] args h = refl
file-parsed program (x ∷ f) args h = ground arith

-- A command that is not empty, with its arguments, and a file that does not look like an option, with
-- its arguments, come back from the command lines that ask for them; a command attached to -c means what
-- a separate one does.
pub parse_args-argv :
    (program c f : Bytes) (args : List Bytes)
    → c ≢ []
    → has_prefix f dash ≡ false
    → (parse_args (program ∷ dash_c ∷ c ∷ args) ≡ parsed (command_invocation c args))
      × (parse_args (program ∷ (dash_c ++ c) ∷ args) ≡ parsed (command_invocation c args))
      × (parse_args (program ∷ f ∷ args) ≡ parsed (file_invocation f args))
unfolding parse_args same
parse_args-argv program c f args nonempty plain =
    (refl, attached program c args nonempty, file-parsed program f args plain)
