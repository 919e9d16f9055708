-- ===== src/Wire/Tags.antt =====
-- The constants of wire.go: node tags, object node kinds and flags, envelope statuses.
use go_python.Prelude.{ℕ}

abbrev pub wire_none : ℕ
wire_none = 0

abbrev pub wire_bool : ℕ
wire_bool = 1

abbrev pub wire_int : ℕ
wire_int = 2

abbrev pub wire_big_int : ℕ
wire_big_int = 3

abbrev pub wire_float : ℕ
wire_float = 4

abbrev pub wire_complex : ℕ
wire_complex = 5

abbrev pub wire_str : ℕ
wire_str = 6

abbrev pub wire_bytes : ℕ
wire_bytes = 7

abbrev pub wire_object : ℕ
wire_object = 8

abbrev pub kind_object : ℕ
kind_object = 0

abbrev pub kind_list : ℕ
kind_list = 1

abbrev pub kind_tuple : ℕ
kind_tuple = 2

abbrev pub kind_dict : ℕ
kind_dict = 3

abbrev pub kind_set : ℕ
kind_set = 4

abbrev pub kind_frozen_set : ℕ
kind_frozen_set = 5

abbrev pub kind_function : ℕ
kind_function = 6

abbrev pub kind_class : ℕ
kind_class = 7

abbrev pub kind_module : ℕ
kind_module = 8

abbrev pub flag_callable : ℕ
flag_callable = 1

abbrev pub wire_ok : ℕ
wire_ok = 0

abbrev pub wire_raised : ℕ
wire_raised = 1

abbrev pub wire_exit : ℕ
wire_exit = 2
