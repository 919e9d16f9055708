-- ===== src/Wire/Lists.antt =====
-- Node lists: what encodeList writes, decodeListResult reads back.
use go_python.Prelude.{
  subst, subst, subst, subst, subst, subst, subst, subst, subst, subst, subst, subst, none, ℕ, ◌+◌,
  ◌%◌, ◌^◌, ◌<◌, ◌≡◌, sym, ap, ◌∙◌, Bytes, Bool, Option, List, [], ◌∷◌, ◌++◌, map, append_assoc,
  append-nil, length, length-append, arith,
}
use go_python.Value.{Value, ok, Error}
use go_python.Wire.Tags.{wire_ok}
use go_python.Wire.LittleEndian.{le_bytes, append_u32}
use go_python.Wire.Encode.{encode_elements, encode_list}
use go_python.Wire.Decode.{decode_nodes}
use go_python.Wire.Envelope.{list_payload, decode_list_result, decode_envelope}
use go_python.Wire.Node.{echo, Fits, node, Owned, encode_value-eq}
use go_python.Wire.Reads.{
  at, Ahead, Ahead-step, Ahead-start, Ahead-byte, byte-Ahead, Ahead-word, word-Ahead,
}
use go_python.Wire.RoundTrip.{decode_node-node}

-- The nodes of a list, one behind the other.
abbrev pub nodes : List Value → Bytes
nodes [] = []
nodes (v ∷ vals) = node v ++ nodes vals

abbrev pub AllOwned : ℕ → List Value → Type 0
AllOwned p [] = Unit {0}
AllOwned p (v ∷ vals) = Owned p v × AllOwned p vals

abbrev pub AllFit : List Value → Type 0
AllFit [] = Unit {0}
AllFit (v ∷ vals) = Fits v × AllFit vals

encode_elements-eq :
    (p i : ℕ) (b : Bytes) (vals : List Value)
    → AllOwned p vals
    → encode_elements p i b vals ≡ ok (b ++ nodes vals)
unfolding encode_elements
encode_elements-eq p i b [] h = ap ok (sym (append-nil b))
encode_elements-eq p i b (v ∷ vals) h = rw (encode_value-eq p b v h.0) (
    encode_elements-eq p (i + 1) (b ++ node v) vals h.1
    ∙ ap ok (append_assoc b (node v) (nodes vals)))

abbrev pub list_node : List Value → Bytes
list_node vals = le_bytes 4 (length vals % 2 ^ 32) ++ nodes vals

-- A list whose elements may all be sent is encoded as its length and its nodes.
pub encode_list-eq :
    (p : ℕ) (vals : List Value) → AllOwned p vals → encode_list p vals ≡ ok (list_node vals)
unfolding encode_list append_u32
encode_list-eq p vals h = encode_elements-eq p 0 _ vals h

module _ (p : ℕ) {b : Bytes} where
  pub decode_nodes-nodes :
      (q : ℕ) (vals : List Value) (rest : Bytes)
      → AllFit vals
      → Ahead b q (nodes vals ++ rest)
      → decode_nodes p (length vals) (at b q)
        ≡ (ok (map (echo p) vals), at b (q + length (nodes vals)))
  unfolding decode_nodes
  decode_nodes-nodes q [] rest fits h = ap (λ k. (ok [], at b k)) {y = q + 0} (omega arith)
  decode_nodes-nodes q (v ∷ vals) rest fits h =
      let h' : Ahead b q (node v ++ (nodes vals ++ rest)) =
        subst (Ahead b q) (append_assoc (node v) (nodes vals) rest) h in
      rw
        (
          decode_node-node p v (nodes vals ++ rest) fits.0 h',
          decode_nodes-nodes (q + length (node v)) vals rest fits.1
              (Ahead-step (node v) (nodes vals ++ rest) h'),
        )
        (ap (λ k. (ok (echo p v ∷ map (echo p) vals), at b k))
          {y = q + length (node v ++ nodes vals)}
          (omega (arith, length-append (node v) (nodes vals))))

  pub ok-envelope :
      (q : ℕ) (ctx_err : Option Error) (interrupted : Bool) (rest : Bytes)
      → Ahead b q (wire_ok ∷ rest)
      → decode_envelope p ctx_err interrupted (at b q) ≡ (none, at b (q + 1))
  unfolding decode_envelope
  ok-envelope q ctx_err interrupted rest h = rw (byte-Ahead wire_ok rest h)

module _ (p : ℕ) {b : Bytes} where
  list_payload-Ahead :
      (q : ℕ) (vals : List Value) (rest : Bytes)
      → AllFit vals
      → length vals < 2 ^ 32
      → Ahead b q (list_node vals ++ rest)
      → list_payload p (at b q) ≡ (ok (map (echo p) vals), at b (q + 4 + length (nodes vals)))
  unfolding list_payload
  list_payload-Ahead q vals rest fits small h =
      let e : length vals % 2 ^ 32 ≡ length vals = omega arith in
      let h' : Ahead b q (le_bytes 4 (length vals) ++ (nodes vals ++ rest)) =
        subst (Ahead b q)
          (append_assoc _ (nodes vals) rest ∙ ap (λ n. le_bytes 4 n ++ (nodes vals ++ rest)) e) h in
      rw (word-Ahead 4 (length vals) (nodes vals ++ rest) small h')
        (decode_nodes-nodes p (q + 4) vals rest fits (Ahead-word 4 (length vals) _ h'))

-- The round trip of lists, through an ok envelope: elements that may be sent and fit, fewer than
-- 2 ^ 32 of them, come back in order, each as its echo.
pub decode_list_result-encode_list :
    (p : ℕ) (ctx_err : Option Error) (interrupted : Bool) (vals : List Value)
    → AllOwned p vals
    → AllFit vals
    → length vals < 2 ^ 32
    → (e : Bytes) × (encode_list p vals ≡ ok e)
      × (decode_list_result p ctx_err (wire_ok ∷ e) interrupted ≡ ok (map (echo p) vals))
unfolding decode_list_result
decode_list_result-encode_list p ctx_err interrupted vals owned fits small =
    let start : Ahead (wire_ok ∷ (list_node vals ++ [])) 0 (wire_ok ∷ (list_node vals ++ [])) =
      Ahead-start [] _ in
    (
      list_node vals,
      encode_list-eq p vals owned,
      subst (λ e. decode_list_result p ctx_err (wire_ok ∷ e) interrupted ≡ ok (map (echo p) vals))
          (append-nil (list_node vals))
          (rw (ok-envelope p 0 ctx_err interrupted _ start) (
            ap (λ x. x.0)
              (list_payload-Ahead p 1 vals [] fits small (Ahead-byte wire_ok _ start)))),
    )
