-- ===== src/Wire/Truncated.antt =====
-- Nodes that end too early. decodeNode looks at the failure flag after a str, bytes, bigint or object
-- node, and not after a bool, int, float or complex node.
use go_python.Prelude.{
  length-append, ℕ, ◌+◌, ◌^◌, ◌<◌, ◌≡◌, ap, ◌∙◌, Bytes, Bool, true, Option, none, [], ◌∷◌, ◌++◌,
  length, arith, pos, text,
}
use go_python.Value.{ok, err, int_value, float_value, errorf, Error}
use go_python.Wire.Tags.{wire_ok, wire_int, wire_float, wire_str, wire_bytes}
use go_python.Wire.LittleEndian.{length-le_bytes, le_bytes, to_int64}
use go_python.Wire.Reader.{word, need, bytes, len_bytes}
use go_python.Wire.Decode.{decode_payload}
use go_python.Wire.Envelope.{decode_node_result}
use go_python.Wire.Reads.{at, Ahead, Ahead-start, Ahead-byte, word-Ahead}
use go_python.Wire.Payloads.{payload-Ahead}
use go_python.Wire.Lists.{ok-envelope}

-- A word that is not there whole reads as 0.
word-short : (w : ℕ) (b : Bytes) (q : ℕ) → length b < q + w → (word w (at b q)).0 ≡ 0
unfolding word need
word-short w b q h = ground arith

bytes-short :
    (n : ℕ) (b : Bytes) (q : ℕ)
    → length b < q + n
    → bytes n (at b q) ≡ ([], record { b = b; pos = q; fail = true })
unfolding bytes need
bytes-short n b q h = ground arith

ok-payload :
    (p : ℕ) (ctx_err : Option Error) (interrupted : Bool) (tag : ℕ) (s : Bytes)
    → decode_node_result p ctx_err (wire_ok ∷ tag ∷ s) interrupted
      ≡ (decode_payload p tag (at (wire_ok ∷ tag ∷ s) 2)).0
unfolding decode_node_result
ok-payload p ctx_err interrupted tag s =
    let start : Ahead (wire_ok ∷ tag ∷ s) 0 (wire_ok ∷ tag ∷ s) = Ahead-start [] _ in
    rw (ok-envelope p 0 ctx_err interrupted _ start)
      (ap (λ x. x.0) (payload-Ahead p tag s (Ahead-byte wire_ok _ start)))

-- An int or float node whose eight bytes are cut short is decoded with no error, to 0.
pub truncated_number :
    (p : ℕ) (ctx_err : Option Error) (interrupted : Bool) (s : Bytes)
    → length s < 8
    → (decode_node_result p ctx_err (wire_ok ∷ wire_int ∷ s) interrupted
        ≡ ok (int_value (record { i = pos 0; big = none })))
      × (decode_node_result p ctx_err (wire_ok ∷ wire_float ∷ s) interrupted ≡ ok (float_value 0))
unfolding decode_payload to_int64
truncated_number p ctx_err interrupted s short = (
  ok-payload p ctx_err interrupted wire_int s
      ∙ rw (word-short 8 (wire_ok ∷ wire_int ∷ s) 2 (omega arith)),
  ok-payload p ctx_err interrupted wire_float s
      ∙ rw (word-short 8 (wire_ok ∷ wire_float ∷ s) 2 (omega arith)),
)

text-short :
    (tag n : ℕ) (s : Bytes)
    → n < 2 ^ 32
    → length s < n
    → (len_bytes (at (wire_ok ∷ tag ∷ (le_bytes 4 n ++ s)) 2)).1.fail ≡ true
unfolding len_bytes
text-short tag n s fits short =
    let b = wire_ok ∷ tag ∷ (le_bytes 4 n ++ s) in
    let h : Ahead b 2 (le_bytes 4 n ++ s) = Ahead-start (wire_ok ∷ tag ∷ []) _ in
    rw (
      word-Ahead 4 n s fits h,
      bytes-short n b 6 (omega (arith, length-append (le_bytes 4 n) s, length-le_bytes 4 n)),
    )

-- A str or bytes node that announces more bytes than there are is an error.
pub truncated_text :
    (p : ℕ) (ctx_err : Option Error) (interrupted : Bool) (n : ℕ) (s : Bytes)
    → n < 2 ^ 32
    → length s < n
    → (decode_node_result p ctx_err (wire_ok ∷ wire_str ∷ (le_bytes 4 n ++ s)) interrupted
        ≡ err (errorf (text "python: malformed str node")))
      × (decode_node_result p ctx_err (wire_ok ∷ wire_bytes ∷ (le_bytes 4 n ++ s)) interrupted
          ≡ err (errorf (text "python: malformed bytes node")))
unfolding decode_payload
truncated_text p ctx_err interrupted n s fits short = (
  ok-payload p ctx_err interrupted wire_str _ ∙ rw (text-short wire_str n s fits short),
  ok-payload p ctx_err interrupted wire_bytes _ ∙ rw (text-short wire_bytes n s fits short),
)
