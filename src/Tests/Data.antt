-- ===== src/Tests/Data.antt =====
-- The inputs of the tests: handles and values of instance 7, a guest, contexts and instances.
use go_python.Prelude.{ℕ, ◌+◌, Bytes, text, true, false, none, some, List, [], ◌∷◌, pos, negsuc}
use go_python.Value.{
  Value, ObjectHandle, ObjectValue, list_value, module_value, plain_object, object_value, int_value,
  str_value, bool_value, IntValue, PythonError, Error, ok,
}
use go_python.Wire.Tags.{wire_ok}
use go_python.Wire.Raised.{Raised}
use go_python.Internal.Proto.{append_bytes}
use go_python.Internal.Instance.{Guest, Python, Context, World}
use go_python.Bridge.{GoFunc, Functions, returns}

abbrev pub a_handle : ObjectHandle
a_handle = record {
  owner = 7;
  id = 5;
  kind = 0;
  callable = false;
  type_name = [];
  released = false;
}

abbrev pub freed_handle : ObjectHandle
freed_handle = record {
  owner = 7;
  id = 5;
  kind = 0;
  callable = false;
  type_name = [];
  released = true;
}

abbrev pub an_object : ObjectValue
an_object = plain_object a_handle

abbrev pub freed : ObjectValue
freed = plain_object freed_handle

abbrev pub a_list : Value
a_list = object_value (
    list_value
      (record { owner = 7; id = 9; kind = 1; callable = false; type_name = []; released = false }))

abbrev pub a_module : Value
a_module = object_value (
    module_value
      (record { owner = 7; id = 3; kind = 8; callable = false; type_name = []; released = false }))

abbrev pub minus_two : Value
minus_two = int_value (record { i = negsuc 1; big = none })

abbrev pub huge : IntValue
huge = record { i = pos 0; big = some (pos 18446744073709551616) }

abbrev pub three : List Value
three = minus_two ∷ str_value (text "hi") ∷ object_value an_object ∷ []

abbrev pub an_exception : Raised
an_exception = record {
  type = text "ValueError";
  message = text "bad";
  traceback = [];
  instance_node = object_value an_object;
}

abbrev pub python_exception : PythonError
python_exception = record {
  type = text "ValueError";
  message = text "bad";
  traceback = [];
  value = some an_object;
}

-- A guest that counts its calls and answers each with the same envelope; a store of the watchdog
-- reaches its words.
abbrev pub guest : Bytes → Guest
guest envelope = record {
  State = ℕ;
  invoke = λ s mid buf store words.
      (ok (append_bytes [] 1 envelope), s + 1, elim store [ none ↦ words | some f ↦ f words ]);
}

abbrev pub empty_guest : Guest
empty_guest = guest (wire_ok ∷ [])

abbrev pub open_python : Python
open_python = record {
  h = 1;
  kbd_interrupt_obj = 4096;
  closed = false;
  pending_rel = 5 ∷ 6 ∷ [];
  dispatcher_set = false;
  next_cb_id = 0;
  words = record { async_exc = 0; breaker = 21 };
}

abbrev pub closed_python : Python
closed_python = record open_python { closed = true }

abbrev pub live_context : Context
live_context = record { cancellable = false; entry_error = none; fires = false; late_error = none }

abbrev pub firing_context : Context
firing_context = record {
  cancellable = true;
  entry_error = none;
  fires = true;
  late_error = some Error.canceled;
}

abbrev pub world : (envelope : Bytes) → World (guest envelope)
world envelope = record { py = open_python; state = 0 }

abbrev pub closed_world : World empty_guest
closed_world = record { py = closed_python; state = 0 }

abbrev pub identity_func : GoFunc
identity_func args kwargs = returns (ok (bool_value true))

abbrev pub one_function : Functions
one_function = record { funcs = (1, identity_func) ∷ []; next_func_id = 1 }
