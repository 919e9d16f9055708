-- ===== src/Wire/Payloads.antt =====
-- The cases of decodeNode, each on a buffer that holds the node of a value of its kind.
use Prim.Native.Nat.{bit_and}
use go_python.Prelude.{
  length-append, ℕ, ◌+◌, ◌%◌, ◌^◌, ◌<◌, ◌≡◌, refl, ap, Bytes, Bool, true, false, not, [], ◌∷◌, ◌++◌,
  length, if◌then◌else◌, ◌==◌, arith,
}
use go_python.Value.{
  Value, bool_value, float_value, complex_value, str_value, bytes_value, object_value, ObjectHandle,
  Result, ok, new_object_handle,
}
use go_python.Wire.Tags.{
  wire_bool, wire_float, wire_complex, wire_str, wire_bytes, wire_object, flag_callable,
}
use go_python.Wire.LittleEndian.{length-le_bytes, len_prefixed, le_bytes}
use go_python.Wire.Reader.{NodeReader}
use go_python.Wire.Decode.{decode_node, decode_payload, object_for}
use go_python.Wire.Node.{node, handle_node}
use go_python.Wire.Reads.{
  len_bytes-Ahead, byte-Ahead, Ahead-byte, at, Ahead, Ahead-word, word-Ahead, bytes-Ahead,
}

pub at_eq :
    {x : Result Value} (b : Bytes) (m n : ℕ)
    → m ≡ n
    → ◌≡◌ {A = Result Value × NodeReader} (x, at b m) (x, at b n)
at_eq {x} b m n e = ap (λ k. (x, at b k)) e

flag-back : (c : Bool) → not (bit_and (if c then flag_callable else 0) flag_callable == 0) ≡ c
flag-back true = refl
flag-back false = refl

pub length-len_prefixed : (s : Bytes) → length (len_prefixed s) ≡ 4 + length s
length-len_prefixed s =
    omega (
      arith,
      length-append (le_bytes 4 (length s % 2 ^ 32)) s,
      length-le_bytes 4 (length s % 2 ^ 32),
    )

pub object-size : (q : ℕ) (o : ObjectHandle) → q + 13 ≡ q + length (handle_node o)
unfolding le_bytes
object-size q o = omega arith

module _ (p : ℕ) {b : Bytes} {q : ℕ} where
  -- Of a node the tag is read, and the payload is left.
  pub payload-Ahead :
      (tag : ℕ) (rest : Bytes)
      → Ahead b q (tag ∷ rest)
      → decode_node p (at b q) ≡ decode_payload p tag (at b (q + 1))
  unfolding decode_node
  payload-Ahead tag rest h = rw (byte-Ahead tag rest h)

  pub bool-back :
      (x : Bool) (rest : Bytes)
      → Ahead b q (node (bool_value x) ++ rest)
      → decode_node p (at b q) ≡ (ok (bool_value x), at b (q + 2))
  unfolding decode_payload
  bool-back true rest h =
      rw
        (
          payload-Ahead wire_bool (1 ∷ rest) h,
          byte-Ahead 1 rest (Ahead-byte wire_bool (1 ∷ rest) h),
        )
        (at_eq b _ _ (omega arith))
  bool-back false rest h =
      rw
        (
          payload-Ahead wire_bool (0 ∷ rest) h,
          byte-Ahead 0 rest (Ahead-byte wire_bool (0 ∷ rest) h),
        )
        (at_eq b _ _ (omega arith))

  pub str-back :
      (s rest : Bytes)
      → length s < 2 ^ 32
      → Ahead b q (node (str_value s) ++ rest)
      → decode_node p (at b q) ≡ (ok (str_value s), at b (q + 5 + length s))
  unfolding decode_payload
  str-back s rest fits h =
      rw
        (
          payload-Ahead wire_str (len_prefixed s ++ rest) h,
          len_bytes-Ahead s rest fits (Ahead-byte wire_str _ h),
        )
        (at_eq b _ _ (omega arith))

  pub bytes-back :
      (s rest : Bytes)
      → length s < 2 ^ 32
      → Ahead b q (node (bytes_value s) ++ rest)
      → decode_node p (at b q) ≡ (ok (bytes_value s), at b (q + 5 + length s))
  unfolding decode_payload
  bytes-back s rest fits h =
      rw
        (
          payload-Ahead wire_bytes (len_prefixed s ++ rest) h,
          len_bytes-Ahead s rest fits (Ahead-byte wire_bytes _ h),
        )
        (at_eq b _ _ (omega arith))

  pub float-back :
      (f : ℕ) (rest : Bytes)
      → f < 2 ^ 64
      → Ahead b q (node (float_value f) ++ rest)
      → decode_node p (at b q) ≡ (ok (float_value f), at b (q + 9))
  unfolding decode_payload
  float-back f rest fits h =
      rw
        (
          payload-Ahead wire_float (le_bytes 8 f ++ rest) h,
          word-Ahead 8 f rest (omega arith) (Ahead-byte wire_float _ h),
        )
        (at_eq b _ _ (omega arith))

  pub complex-back :
      (re im : ℕ) (rest : Bytes)
      → re < 2 ^ 64
      → im < 2 ^ 64
      → Ahead b q (node (complex_value re im) ++ rest)
      → decode_node p (at b q) ≡ (ok (complex_value re im), at b (q + 17))
  unfolding decode_payload le_bytes
  complex-back re im rest fr fi h =
      let h1 : Ahead b (q + 1) (le_bytes 8 re ++ (le_bytes 8 im ++ rest)) = Ahead-byte _ _ h in
      rw
        (
          payload-Ahead wire_complex _ h,
          word-Ahead 8 re (le_bytes 8 im ++ rest) (omega arith) h1,
          word-Ahead 8 im rest (omega arith) (Ahead-word 8 re _ h1),
        )
        (at_eq b _ _ (omega arith))

  pub object-back :
      (o : ObjectHandle) (rest : Bytes)
      → o.id < 2 ^ 64
      → o.kind < 256
      → Ahead b q (handle_node o ++ rest)
      → decode_node p (at b q) ≡ (
        ok (object_value (object_for (new_object_handle p o.id o.kind o.callable []))),
        at b (q + 13),
      )
  unfolding decode_payload le_bytes
  object-back o rest fid fkind h =
      let flag : ℕ = if o.callable then flag_callable else 0 in
      let h1 : Ahead b (q + 1) (le_bytes 8 o.id ++ (o.kind ∷ flag ∷ (le_bytes 2 0 ++ rest))) =
        Ahead-byte _ _ h in
      let h2 = Ahead-word 8 o.id _ h1 in
      let h3 = Ahead-byte _ _ h2 in
      let h4 : Ahead b (q + 1 + 8 + 1 + 1) (le_bytes 2 0 ++ rest) = Ahead-byte _ _ h3 in
      rw
        (
          payload-Ahead wire_object _ h,
          word-Ahead 8 o.id _ (omega arith) h1,
          byte-Ahead o.kind _ h2,
          byte-Ahead flag _ h3,
          word-Ahead 2 0 rest (omega arith) h4,
          bytes-Ahead [] rest (Ahead-word 2 0 rest h4),
          flag-back o.callable,
        )
        (at_eq b _ _ (omega arith))
