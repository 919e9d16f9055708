-- ===== src/Wire/RoundTrip.antt =====
-- decodeNode reads back what encodeValue writes.
use go_python.Prelude.{length-append, ℕ, ◌+◌, ◌≡◌, ◌∙◌, Bytes, ◌++◌, length, arith}
use go_python.Value.{
  Value, nil, none_value, bool_value, int_value, float_value, complex_value, str_value, bytes_value,
  object_value, handle, ok,
}
use go_python.Wire.Tags.{wire_none}
use go_python.Wire.LittleEndian.{length-le_bytes, le_bytes}
use go_python.Wire.Encode.{encode_value}
use go_python.Wire.Decode.{decode_node, decode_payload}
use go_python.Wire.Node.{echo, Fits, node, Owned, encode_value-eq}
use go_python.Wire.Reads.{at, Ahead, Ahead-start}
use go_python.Wire.Integers.{int_value-back}
use go_python.Wire.Payloads.{
  at_eq, length-len_prefixed, object-size, payload-Ahead, bool-back, float-back, complex-back,
  str-back, bytes-back, object-back,
}

module _ (p : ℕ) {b : Bytes} {q : ℕ} where
  -- A node that stands ahead is decoded to its value, and the reader stops right behind it.
  pub decode_node-node :
      (v : Value) (rest : Bytes)
      → Fits v
      → Ahead b q (node v ++ rest)
      → decode_node p (at b q) ≡ (ok (echo p v), at b (q + length (node v)))
  unfolding decode_payload
  decode_node-node nil rest fits h = payload-Ahead p wire_none rest h
  decode_node-node none_value rest fits h = payload-Ahead p wire_none rest h
  decode_node-node (bool_value x) rest fits h = bool-back p x rest h
  decode_node-node (int_value x) rest fits h = int_value-back p x.i x.big rest fits.0 fits.1 h
  decode_node-node (float_value f) rest fits h =
      float-back p f rest fits h ∙ at_eq b _ _ (omega (arith, length-le_bytes 8 f))
  decode_node-node (complex_value re im) rest fits h =
      complex-back p re im rest fits.0 fits.1 h
      ∙ at_eq b _ _ (
          omega (
            arith,
            length-append (le_bytes 8 re) (le_bytes 8 im),
            length-le_bytes 8 re,
            length-le_bytes 8 im,
          ))
  decode_node-node (str_value s) rest fits h =
      str-back p s rest fits h ∙ at_eq b _ _ (omega (arith, length-len_prefixed s))
  decode_node-node (bytes_value s) rest fits h =
      bytes-back p s rest fits h ∙ at_eq b _ _ (omega (arith, length-len_prefixed s))
  decode_node-node (object_value o) rest fits h =
      object-back p (handle o) rest fits.0 fits.1 h ∙ at_eq b _ _ (object-size q (handle o))

-- The round trip: a value that instance p may send and that fits the format is encoded, and decoding
-- from the place where the encoder began, whatever follows in the buffer, gives the value back (a
-- nil value as None, an object as a fresh handle on the same guest object) and stops right behind it.
pub decode-encode :
    (p : ℕ) (b : Bytes) (v : Value) (rest : Bytes)
    → Owned p v
    → Fits v
    → (encode_value p b v ≡ ok (b ++ node v))
      × (decode_node p (at (b ++ (node v ++ rest)) (length b))
          ≡ (ok (echo p v), at (b ++ (node v ++ rest)) (length b + length (node v))))
decode-encode p b v rest owned fits =
    (encode_value-eq p b v owned, decode_node-node p v rest fits (Ahead-start b (node v ++ rest)))
