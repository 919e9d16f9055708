-- ===== src/Wire/Node.antt =====
-- The wire format of a node, described apart from the encoder: the bytes of each value, which values
-- can be sent, and that the encoder writes these bytes or fails.
use go_python.Prelude.{
  length, ◌^◌, ◌∙◌, sym, ℕ, ◌≡◌, refl, ap, Bytes, true, false, Option, none, some, ◌↔◌, [], ◌∷◌,
  ◌++◌, append_assoc, if◌then◌else◌, ◌==◌, arith, ℤ,
}
use go_python.Value.{
  Value, nil, none_value, bool_value, int_value, float_value, complex_value, str_value, bytes_value,
  object_value, ObjectHandle, handle, ok,
}
use go_python.Wire.Tags.{
  wire_none, wire_bool, wire_int, wire_big_int, wire_float, wire_complex, wire_str, wire_bytes,
  wire_object, flag_callable,
}
use go_python.Wire.LittleEndian.{
  len_prefixed, le_bytes, append_u16, append_u32, append_u64, append_f64, append_len_bytes,
  to_uint64,
}
use go_python.Wire.Magnitude.{big_bytes, reversed}
use go_python.Value.{new_object_handle}
use go_python.Value.Convert.{IsNormal}
use go_python.Wire.Decode.{object_for}
use go_python.Prelude.{◌<◌}
use go_python.Wire.Encode.{
  encode_value, encode_handle, encode_int, magnitude, is_negative, byte_of_bool,
}

abbrev pub handle_node : ObjectHandle → Bytes
handle_node h =
    wire_object
    ∷ (le_bytes 8 h.id ++ (h.kind ∷ (if h.callable then flag_callable else 0) ∷ le_bytes 2 0))

abbrev pub int_node : ℤ → Option ℤ → Bytes
int_node i none = wire_int ∷ le_bytes 8 (to_uint64 i)
int_node i (some n) =
    wire_big_int ∷ byte_of_bool (is_negative n) ∷ len_prefixed (reversed (big_bytes (magnitude n)))

-- The bytes of a node.
abbrev pub node : Value → Bytes
node nil = wire_none ∷ []
node none_value = wire_none ∷ []
node (bool_value x) = wire_bool ∷ byte_of_bool x ∷ []
node (int_value x) = int_node x.i x.big
node (float_value f) = wire_float ∷ le_bytes 8 f
node (complex_value re im) = wire_complex ∷ (le_bytes 8 re ++ le_bytes 8 im)
node (str_value s) = wire_str ∷ len_prefixed s
node (bytes_value s) = wire_bytes ∷ len_prefixed s
node (object_value o) = handle_node (handle o)

-- A value that instance p may send: an object must be live and p's own.
abbrev pub Owned : ℕ → Value → Type 0
Owned p (object_value o) = ((handle o).released ≡ false) × ((handle o).owner ≡ p)
Owned p _ = Unit {0}

-- The object that comes back: a fresh handle on the same guest object, with no type name, since
-- type names travel from the guest to the host only.
abbrev pub echo : ℕ → Value → Value
echo p nil = none_value
echo p (object_value o) =
    object_value
      (object_for (new_object_handle p (handle o).id (handle o).kind (handle o).callable []))
echo p v = v

abbrev pub FitsInt : ℤ → Option ℤ → Type 0
FitsInt i none = Unit {0}
FitsInt i (some n) = length (reversed (big_bytes (magnitude n))) < 2 ^ 32

-- The sizes that the wire format has room for, and the normal representation of ints.
abbrev pub Fits : Value → Type 0
Fits (int_value x) = IsNormal x × FitsInt x.i x.big
Fits (float_value f) = f < 2 ^ 64
Fits (complex_value re im) = (re < 2 ^ 64) × (im < 2 ^ 64)
Fits (str_value s) = length s < 2 ^ 32
Fits (bytes_value s) = length s < 2 ^ 32
Fits (object_value o) = ((handle o).id < 2 ^ 64) × ((handle o).kind < 256)
Fits _ = Unit {0}

encode_handle-eq :
    (p : ℕ) (b : Bytes) (h : ObjectHandle)
    → h.released ≡ false
    → h.owner ≡ p
    → encode_handle p b h ≡ ok (b ++ handle_node h)
unfolding encode_handle append_u16 append_u64
encode_handle-eq p b h r o =
    let same : (h.owner == p) ≡ true = ground arith in rw (r, same) (ap ok (simp append_assoc))

encode_int-eq : (b : Bytes) (i : ℤ) (n : Option ℤ) → encode_int b i n ≡ b ++ int_node i n
unfolding encode_int append_u32 append_u64 append_len_bytes
encode_int-eq b i none = append_assoc b _ _
encode_int-eq b i (some n) = simp append_assoc

-- Whatever instance p may send is encoded, and the bytes appended to the buffer are its node.
pub encode_value-eq :
    (p : ℕ) (b : Bytes) (v : Value) → Owned p v → encode_value p b v ≡ ok (b ++ node v)
unfolding encode_value append_u32 append_u64 append_f64 append_len_bytes
encode_value-eq p b nil h = refl
encode_value-eq p b none_value h = refl
encode_value-eq p b (bool_value x) h = ap ok (append_assoc b _ _)
encode_value-eq p b (int_value x) h = ap ok (encode_int-eq b x.i x.big)
encode_value-eq p b (float_value f) h = ap ok (append_assoc b _ _)
encode_value-eq p b (complex_value re im) h = simp append_assoc
encode_value-eq p b (str_value s) h = simp append_assoc
encode_value-eq p b (bytes_value s) h = simp append_assoc
encode_value-eq p b (object_value o) h = encode_handle-eq p b (handle o) h.0 h.1

Owned-of_ok : (p : ℕ) (b : Bytes) (v : Value) {e : Bytes} → encode_value p b v ≡ ok e → Owned p v
unfolding encode_value encode_handle
Owned-of_ok p b nil h = tt
Owned-of_ok p b none_value h = tt
Owned-of_ok p b (bool_value x) h = tt
Owned-of_ok p b (int_value x) h = tt
Owned-of_ok p b (float_value f) h = tt
Owned-of_ok p b (complex_value re im) h = tt
Owned-of_ok p b (str_value s) h = tt
Owned-of_ok p b (bytes_value s) h = tt
Owned-of_ok p b (object_value o) h = (ground arith, ground arith)

-- The encoder succeeds exactly on what instance p may send (every value but a released object and
-- an object of another instance), and then it has appended the value's node to the buffer, whatever
-- the buffer held.
pub encode_value-ok_iff :
    (p : ℕ) (b : Bytes) (v : Value) (e : Bytes)
    → ((encode_value p b v ≡ ok e) ↔ (Owned p v × (b ++ node v ≡ e)))
encode_value-ok_iff p b v e = (
  λ h. (Owned-of_ok p b v h, ok-injective (sym (encode_value-eq p b v (Owned-of_ok p b v h)) ∙ h)),
  λ h. encode_value-eq p b v h.0 ∙ ap ok h.1,
)
  where
    ok-injective : {x y : Bytes} → ok x ≡ ok y → x ≡ y
    ok-injective q = cc
