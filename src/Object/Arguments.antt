-- ===== src/Object/Arguments.antt =====
-- The arguments of a call: what encodeCallArgs sends, read as the two lists that a call carries.
use go_python.Prelude.{
  refl, suc, arith, ℕ, ◌^◌, ◌%◌, ◌<◌, ◌≡◌, ap, sym, ◌∙◌, Bytes, List, [], ◌∷◌, ◌++◌, map, length,
  append_assoc, append-nil,
}
use go_python.Value.{
  Value, nil, none_value, bool_value, int_value, float_value, complex_value, str_value, bytes_value,
  object_value, ok,
}
use go_python.Wire.LittleEndian.{le_bytes, append_u32, append_len_bytes}
use go_python.Wire.Encode.{
  positional_arg, kwarg, Arg, positionals, keywords, encode_call_args, encode_keywords,
}
use go_python.Wire.Node.{Fits, echo, node, Owned, encode_value-eq}
use go_python.Wire.Lists.{AllOwned, AllFit, list_node, encode_list-eq}
use go_python.Bridge.{Kwargs, decode_request}
use go_python.Bridge.Callback.{kwarg_nodes, KwargsFit, entries, decode_request-request}

abbrev pub KwargsOwned : ℕ → Kwargs → Type 0
KwargsOwned p [] = Unit {0}
KwargsOwned p ((name, v) ∷ rest) = Owned p v × KwargsOwned p rest

encode_keywords-eq :
    (p : ℕ) (kwargs : Kwargs) (b : Bytes)
    → KwargsOwned p kwargs
    → encode_keywords p b kwargs ≡ ok (b ++ kwarg_nodes kwargs)
unfolding encode_keywords append_len_bytes append_u32
encode_keywords-eq p [] b own = ap ok (sym (append-nil b))
encode_keywords-eq p ((name, v) ∷ kwargs) b own = rw (encode_value-eq p _ v own.0) (
    encode_keywords-eq p kwargs (append_len_bytes b name ++ node v) own.1
    ∙ ap ok (simp append_assoc))

abbrev pub keyword_list : Kwargs → Bytes
keyword_list kwargs = le_bytes 4 (length kwargs % 2 ^ 32) ++ kwarg_nodes kwargs

encode_call_args-eq :
    (p : ℕ) (args : List Arg) (vals : List Value) (kwargs : Kwargs)
    → positionals args ≡ vals
    → keywords args ≡ kwargs
    → AllOwned p vals
    → KwargsOwned p kwargs
    → encode_call_args p args ≡ ok (list_node vals, keyword_list kwargs)
unfolding encode_call_args append_u32
encode_call_args-eq p args vals kwargs ps ks own kown = rw (
  ps,
  ks,
  encode_list-eq p vals own,
  encode_keywords-eq p kwargs (le_bytes 4 (length kwargs % 2 ^ 32)) kown,
)

-- `Split args vals kwargs`: the arguments args are the positional vals and the keyword arguments
-- kwargs, interleaved in any way.
pub data Split : List Arg → List Value → Kwargs → Type 0 where
  split_end : Split [] [] []
  split_positional :
      {args : List Arg} {vals : List Value} {kwargs : Kwargs} (v : Value)
      → Split args vals kwargs
      → Split (positional_arg v ∷ args) (v ∷ vals) kwargs
  split_keyword :
      {args : List Arg} {vals : List Value} {kwargs : Kwargs} (name : Bytes) (v : Value)
      → Split args vals kwargs
      → Split (kwarg name v ∷ args) vals ((name, v) ∷ kwargs)

pub or_none : Value → Value
or_none nil = none_value
or_none none_value = none_value
or_none (bool_value b) = bool_value b
or_none (int_value x) = int_value x
or_none (float_value f) = float_value f
or_none (complex_value re im) = complex_value re im
or_none (str_value s) = str_value s
or_none (bytes_value s) = bytes_value s
or_none (object_value o) = object_value o

-- A nil value has the node, the echo and the rights of None.
or_none-echo : (p : ℕ) (v : Value) → echo p (or_none v) ≡ echo p v
unfolding or_none
or_none-echo p nil = refl
or_none-echo p none_value = refl
or_none-echo p (bool_value b) = refl
or_none-echo p (int_value x) = refl
or_none-echo p (float_value f) = refl
or_none-echo p (complex_value re im) = refl
or_none-echo p (str_value s) = refl
or_none-echo p (bytes_value s) = refl
or_none-echo p (object_value o) = refl

or_none-sendable : (p : ℕ) (v : Value) → Owned p v → Fits v → Owned p (or_none v) × Fits (or_none v)
unfolding or_none
or_none-sendable p nil own fits = (tt, tt)
or_none-sendable p none_value own fits = (own, fits)
or_none-sendable p (bool_value b) own fits = (own, fits)
or_none-sendable p (int_value x) own fits = (own, fits)
or_none-sendable p (float_value f) own fits = (own, fits)
or_none-sendable p (complex_value re im) own fits = (own, fits)
or_none-sendable p (str_value s) own fits = (own, fits)
or_none-sendable p (bytes_value s) own fits = (own, fits)
or_none-sendable p (object_value o) own fits = (own, fits)

pub positionals-or_none :
    (v : Value) (args : List Arg)
    → positionals (positional_arg v ∷ args) ≡ or_none v ∷ positionals args
unfolding positionals or_none
positionals-or_none nil args = refl
positionals-or_none none_value args = refl
positionals-or_none (bool_value b) args = refl
positionals-or_none (int_value x) args = refl
positionals-or_none (float_value f) args = refl
positionals-or_none (complex_value re im) args = refl
positionals-or_none (str_value s) args = refl
positionals-or_none (bytes_value s) args = refl
positionals-or_none (object_value o) args = refl

positionals-Split :
    {args : List Arg} {vals : List Value} {kwargs : Kwargs}
    → Split args vals kwargs
    → positionals args ≡ map or_none vals
unfolding positionals
positionals-Split split_end = refl
positionals-Split (split_positional {args} v s) =
    positionals-or_none v args ∙ ap (λ (t : List Value). or_none v ∷ t) (positionals-Split s)
positionals-Split (split_keyword name v s) = positionals-Split s

keywords-Split :
    {args : List Arg} {vals : List Value} {kwargs : Kwargs}
    → Split args vals kwargs
    → keywords args ≡ kwargs
unfolding keywords
keywords-Split split_end = refl
keywords-Split (split_positional v s) = keywords-Split s
keywords-Split (split_keyword name v s) = ap (λ (t : Kwargs). (name, v) ∷ t) (keywords-Split s)

sendable-map :
    (p : ℕ) (vals : List Value)
    → AllOwned p vals
    → AllFit vals
    → AllOwned p (map or_none vals) × AllFit (map or_none vals)
sendable-map p [] own fits = (tt, tt)
sendable-map p (v ∷ vals) own fits =
    let head = or_none-sendable p v own.0 fits.0 in
    let tail = sendable-map p vals own.1 fits.1 in ((head.0, tail.0), (head.1, tail.1))

echo-map : (p : ℕ) (vals : List Value) → map (echo p) (map or_none vals) ≡ map (echo p) vals
echo-map p [] = refl
echo-map p (v ∷ vals) =
    ap (λ (x : Value). x ∷ map (echo p) (map or_none vals)) (or_none-echo p v)
    ∙ ap (λ (t : List Value). echo p v ∷ t) (echo-map p vals)

length-map : (vals : List Value) → length (map or_none vals) ≡ length vals
length-map [] = refl
length-map (v ∷ vals) = ap suc (length-map vals)

-- The argument lists of a call are those that the bridge reads in the other direction: however
-- positional and keyword arguments are interleaved in the call, if they may be sent and fit, and there
-- are fewer than 2 ^ 32 of each, the two encoded lists after one another decode to the positional
-- arguments in order and the keyword arguments, each value as its echo, a nil argument as None.
pub decode_request-encode_call_args :
    (p : ℕ) (args : List Arg) (vals : List Value) (kwargs : Kwargs)
    → Split args vals kwargs
    → AllOwned p vals
    → KwargsOwned p kwargs
    → length vals < 2 ^ 32
    → AllFit vals
    → length kwargs < 2 ^ 32
    → KwargsFit kwargs
    → (e : Bytes × Bytes) × (encode_call_args p args ≡ ok e)
      × (decode_request p (e.0 ++ e.1) ≡ ok (map (echo p) vals, entries p kwargs []))
decode_request-encode_call_args p args vals kwargs s own kown nv fv nk fk =
    let sent = map or_none vals in
    let sendable = sendable-map p vals own fv in
    (
      (list_node sent, keyword_list kwargs),
      encode_call_args-eq p args sent kwargs (positionals-Split s) (keywords-Split s) sendable.0
          kown,
      ap (decode_request p) (simp (append_assoc, append-nil))
          ∙ decode_request-request p sent kwargs (omega (arith, length-map vals)) sendable.1 nk fk
          ∙ ap (λ (t : List Value). ok (t, entries p kwargs [])) (echo-map p vals),
    )
