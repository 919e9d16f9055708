-- ===== src/Wire/Integers.antt =====
-- What decode_node does on a node of an integer, small or big.
use go_python.Prelude.{
  ℕ, zero, suc, ◌+◌, ◌≡◌, refl, ◌∙◌, Bytes, not, Option, none, some, ◌++◌, length, ◌==◌, arith, ℤ,
  pos, negsuc,
}
use go_python.Value.{int_value, ok, big_int}
use go_python.Value.Convert.{InInt64, IsNormal, int_from_big, int_from_big-big_int}
use go_python.Wire.Tags.{wire_int, wire_big_int}
use go_python.Wire.LittleEndian.{
  length-le_bytes, len_prefixed, le_bytes, to_uint64, to_int64-to_uint64,
}
use go_python.Wire.Magnitude.{big_bytes, reversed, set_bytes-big_bytes}
use go_python.Wire.Encode.{magnitude, is_negative, byte_of_bool}
use go_python.Wire.Decode.{decode_node, decode_payload, negated}
use go_python.Wire.Node.{FitsInt, int_node}
use go_python.Wire.Reads.{len_bytes-Ahead, byte-Ahead, Ahead-byte, at, Ahead, word-Ahead}
use go_python.Wire.Payloads.{at_eq, payload-Ahead, length-len_prefixed}

negated-magnitude : (n : ℤ) → negated (not (byte_of_bool (is_negative n) == 0)) (magnitude n) ≡ n
unfolding negated is_negative magnitude
negated-magnitude (pos zero) = refl
negated-magnitude (pos (suc n)) = refl
negated-magnitude (negsuc n) = refl

int_from_big-some :
    (i n : ℤ)
    → IsNormal (record { i = i; big = some n })
    → int_from_big n ≡ record { i = i; big = some n }
unfolding big_int
int_from_big-some i n normal = int_from_big-big_int (record { i = i; big = some n }) normal

module _ (p : ℕ) {b : Bytes} {q : ℕ} where
  int-back :
      (i : ℤ) (rest : Bytes)
      → InInt64 i
      → Ahead b q (int_node i none ++ rest)
      → decode_node p (at b q) ≡ (ok (int_value (record { i = i; big = none })), at b (q + 9))
  unfolding decode_payload
  int-back i rest fits h =
      let back = to_int64-to_uint64 i fits in
      rw
        (
          payload-Ahead p wire_int (le_bytes 8 (to_uint64 i) ++ rest) h,
          word-Ahead 8 (to_uint64 i) rest (omega (arith, back.1)) (Ahead-byte wire_int _ h),
          back.0,
        )
        (at_eq b _ _ (omega arith))

  big-back :
      (i n : ℤ) (rest : Bytes)
      → IsNormal (record { i = i; big = some n })
      → FitsInt i (some n)
      → Ahead b q (int_node i (some n) ++ rest)
      → decode_node p (at b q) ≡ (
        ok (int_value (record { i = i; big = some n })),
        at b (q + 6 + length (reversed (big_bytes (magnitude n)))),
      )
  unfolding decode_payload
  big-back i n rest normal fits h =
      let h1 = Ahead-byte _ _ h in
      rw
        (
          payload-Ahead p wire_big_int _ h,
          byte-Ahead (byte_of_bool (is_negative n)) _ h1,
          len_bytes-Ahead (reversed (big_bytes (magnitude n))) rest fits (Ahead-byte _ _ h1),
          set_bytes-big_bytes (magnitude n),
          negated-magnitude n,
          int_from_big-some i n normal,
        )
        (at_eq b _ _ (omega arith))

  pub int_value-back :
      (i : ℤ) (n : Option ℤ) (rest : Bytes)
      → IsNormal (record { i = i; big = n })
      → FitsInt i n
      → Ahead b q (int_node i n ++ rest)
      → decode_node p (at b q)
        ≡ (ok (int_value (record { i = i; big = n })), at b (q + length (int_node i n)))
  int_value-back i none rest normal fits h =
      int-back i rest normal h ∙ at_eq b _ _ (omega (arith, length-le_bytes 8 (to_uint64 i)))
  int_value-back i (some n) rest normal fits h =
      let size : length (len_prefixed (reversed (big_bytes (magnitude n))))
          ≡ 4 + length (reversed (big_bytes (magnitude n))) =
        length-len_prefixed _ in
      big-back i n rest normal fits h ∙ at_eq b _ _ (omega (arith, size))
