-- ===== src/Tests/Instances.antt =====
-- The theorems on the transport, the instance, its release queue and its handles at concrete inputs.
use go_python.Prelude.{◌++◌, List, length, some, ℕ, ◌≡◌, refl, text, true, none, [], ◌∷◌, ◌/◌, ◌%◌}
use go_python.Value.{str_value, object_value, ok, err, closed as err_closed}
use go_python.Wire.Tags.{wire_ok}
use go_python.Wire.Node.{Owned}
use go_python.Wire.Encode.{positional_arg, released_error}
use go_python.Internal.Instance.{Guest, World, Words, value_op, close}
use go_python.Internal.Interrupt.{value_op-words}
use go_python.Internal.Closing
use go_python.Internal.Closing.{value_op-refused, close-close, Reach-closed}
use go_python.Internal.Release
use go_python.Internal.Release.{Pins, new_handle, drain}
use go_python.Internal.Proto.{read_bytes_at_field}
use go_python.Object
use go_python.Object.Guards.{released-refused}
use go_python.Object.Foreign.{foreign-refused}
use go_python.Wire.Encode.{kwarg}
use go_python.Value.{Value}
use go_python.Internal.Drain.{but_words, value_op-drain, unpack}
use go_python.Tests.Data.{
  a_handle, an_object, freed, three, empty_guest, open_python, live_context, firing_context, world,
  closed_world,
}

abbrev busy : Words
busy = record { async_exc = 4096; breaker = 21 }

value_op-words_example :
    ((value_op empty_guest firing_context 4 [] (world (wire_ok ∷ []))).1.py.words.async_exc ≡ 0)
    × ((value_op empty_guest firing_context 4 [] (world (wire_ok ∷ []))).1.py.words.breaker / 8 % 2
        ≡ 0)
    × ((value_op empty_guest firing_context 4 [] (world (wire_ok ∷ []))).0.1 ≡ true)
value_op-words_example =
    value_op-words empty_guest firing_context 4 [] (world (wire_ok ∷ [])) refl refl refl refl

Reach-closed_example :
    ((value_op empty_guest live_context 4 [] closed_world).1.py.closed ≡ true)
    × ((value_op empty_guest live_context 4 [] closed_world).1.state ≡ 0)
Reach-closed_example =
    Reach-closed empty_guest refl
      (Closing.next Closing.here (Closing.operation live_context 4 [] closed_world))

abbrev fresh : Pins
fresh = record { handles = []; py = record open_python { pending_rel = [] }; sent = []; lost = [] }

abbrev pinned : Pins
pinned = new_handle a_handle fresh

-- A guest that logs the releases.
abbrev logging : Guest
logging = record {
  State = List ℕ;
  invoke = λ s mid req store ws. elim (read_bytes_at_field req 2) [
    | none ↦ (err err_closed, s, ws)
    | some b ↦ (ok [], s ++ unpack (length b / 8) b, ws)
  ];
}

abbrev start : World empty_guest
start = world (wire_ok ∷ [])

released-refused_example :
    (Object.attr empty_guest freed live_context (text "x") start ≡ (err released_error, start))
    × (Object.set_attr empty_guest freed live_context (text "x") (str_value []) start
        ≡ (err released_error, start))
    × (Object.item empty_guest freed live_context (str_value []) start
        ≡ (err released_error, start))
    × (Object.set_item empty_guest freed live_context (str_value []) (str_value []) start
        ≡ (err released_error, start))
    × (Object.del_item empty_guest freed live_context (str_value []) start
        ≡ (err released_error, start))
    × (Object.len empty_guest freed live_context start ≡ (err released_error, start))
    × (Object.contains empty_guest freed live_context (str_value []) start
        ≡ (err released_error, start))
    × (Object.call_object empty_guest freed live_context [] start ≡ (err released_error, start))
    × (Object.call_method empty_guest freed live_context (text "x") [] start
        ≡ (err released_error, start))
    × (Object.str empty_guest freed live_context start ≡ (err released_error, start))
    × (Object.repr empty_guest freed live_context start ≡ (err released_error, start))
    × (Object.is_instance empty_guest freed live_context none start ≡ (err released_error, start))
    × (Object.values empty_guest freed live_context start ≡ (err released_error, start))
    × (Object.append empty_guest freed live_context three start ≡ (err released_error, start))
    × (Object.dict_get empty_guest freed live_context (str_value []) start
        ≡ (err released_error, start))
    × (Object.dict_keys empty_guest freed live_context start ≡ (err released_error, start))
    × (Object.dict_values empty_guest freed live_context start ≡ (err released_error, start))
    × (Object.dict_items empty_guest freed live_context start ≡ (err released_error, start))
    × (Object.add empty_guest freed live_context (str_value []) start ≡ (err released_error, start))
    × (Object.discard empty_guest freed live_context (str_value []) start
        ≡ (err released_error, start))
released-refused_example =
    released-refused empty_guest freed live_context (text "x") (str_value []) (str_value []) three
      [] none start refl

freed-unowned : ¬ Owned 7 (object_value freed)
freed-unowned h = cc

abbrev foreign : Value
foreign = object_value freed

foreign-refused_example :
    ((Object.set_attr empty_guest an_object live_context (text "x") foreign start).1 ≡ start)
    × ((Object.item empty_guest an_object live_context foreign start).1 ≡ start)
    × ((Object.set_item empty_guest an_object live_context foreign (str_value []) start).1 ≡ start)
    × ((Object.set_item empty_guest an_object live_context (str_value []) foreign start).1 ≡ start)
    × ((Object.del_item empty_guest an_object live_context foreign start).1 ≡ start)
    × ((Object.contains empty_guest an_object live_context foreign start).1 ≡ start)
    × ((Object.dict_get empty_guest an_object live_context foreign start).1 ≡ start)
    × ((Object.add empty_guest an_object live_context foreign start).1 ≡ start)
    × ((Object.discard empty_guest an_object live_context foreign start).1 ≡ start)
    × ((Object.append empty_guest an_object live_context (three ++ (foreign ∷ [])) start).1 ≡ start)
    × ((Object.call_object empty_guest an_object live_context (positional_arg foreign ∷ []) start).1
        ≡ start)
    × ((Object.call_object empty_guest an_object live_context
          (kwarg (text "x") foreign ∷ [])
          start).1
        ≡ start)
    × ((Object.call_method empty_guest an_object live_context
          (text "x")
          (positional_arg foreign ∷ [])
          start).1
        ≡ start)
    × ((Object.call_method empty_guest an_object live_context
          (text "x")
          (kwarg (text "x") foreign ∷ [])
          start).1
        ≡ start)
foreign-refused_example =
    foreign-refused empty_guest an_object live_context (text "x") freed (str_value []) three [] []
      [] start freed-unowned

value_op-drain_example :
    (but_words open_python.words (value_op empty_guest live_context 4 [] start).1.py
      ≡ (drain true (record { handles = []; py = open_python; sent = []; lost = [] })).py)
    × (but_words open_python.words (close empty_guest start).1.py
        ≡ record open_python { closed = true })
value_op-drain_example = value_op-drain empty_guest live_context 4 [] start true [] [] [] refl refl
