-- ===== src/Wire/Bounds.antt =====
-- The reader stays inside its buffer: no read of the decoder moves the position back or past the end,
-- changes the buffer or clears the failure flag.
use go_python.Prelude.{
  ℕ, zero, suc, ◌+◌, ◌<◌, ◌≤◌, ◌≡◌, refl, ◌∙◌, Bool, true, false, List, length, if◌then◌else◌,
  arith, ◌==◌, Bool-cases, inl, inr,
}
use go_python.Value.{Result-cases, Value, ok, err, Error}
use go_python.Wire.Reader.{NodeReader, need, word, bytes, len_bytes, u8, u16, u64}
use go_python.Wire.Decode.{node_error, decode_node, decode_payload, decode_nodes, checked}

pub record Extends (r r' : NodeReader) : Type 0 where
  pub buffer : r'.b ≡ r.b
  pub forward : r.pos ≤ r'.pos
  pub within : r.pos ≤ length r.b → r'.pos ≤ length r'.b
  pub sticky : r.fail ≡ true → r'.fail ≡ true

Extends-refl : (r : NodeReader) → Extends r r
Extends-refl r = record { buffer = refl; forward = omega arith; within = λ h. h; sticky = λ h. h }

Extends-trans : {r s t : NodeReader} → Extends r s → Extends s t → Extends r t
Extends-trans x y = record {
  buffer = y.buffer ∙ x.buffer;
  forward = omega arith;
  within = λ h. y.within (x.within h);
  sticky = λ h. y.sticky (x.sticky h);
}

pub word-Extends : (w : ℕ) (r : NodeReader) → Extends r (word w r).1
unfolding word need
word-Extends w r = ground arith

word-there : (w : ℕ) (r : NodeReader) → (word w r).1.fail ≡ false → (word w r).1.pos ≡ r.pos + w
unfolding word need
word-there w r h = ground arith

pub bytes-Extends : (n : ℕ) (r : NodeReader) → Extends r (bytes n r).1
unfolding bytes need
bytes-Extends n r = ground arith

pub len_bytes-Extends : (r : NodeReader) → Extends r (len_bytes r).1
unfolding len_bytes
len_bytes-Extends r = Extends-trans (word-Extends 4 r) (bytes-Extends _ _)

if-Extends :
    {A : Type 0} {r : NodeReader} (c : Bool) (x y : A × NodeReader)
    → Extends r x.1
    → Extends r y.1
    → Extends r (if c then x else y).1
if-Extends true x y hx hy = hx
if-Extends false x y hx hy = hy

checked-Extends :
    {A : Type 0} {r s : NodeReader} (e : Error) (v : A) → Extends r s → Extends r (checked e v s).1
checked-Extends {s = s} e v h = if-Extends s.fail _ _ h h

object-Extends :
    (r : NodeReader) → let s = (u8 (u8 (u64 r).1).1).1 in Extends r (bytes (u16 s).0 (u16 s).1).1
object-Extends r = Extends-trans (word-Extends 8 r) (
    Extends-trans (word-Extends 1 _)
      (Extends-trans (word-Extends 1 _) (Extends-trans (word-Extends 2 _) (bytes-Extends _ _))))

decode_payload-Extends : (p tag : ℕ) (r : NodeReader) → Extends r (decode_payload p tag r).1
unfolding decode_payload
decode_payload-Extends p tag r = if-Extends (tag == 0) _ _ (Extends-refl r) (
    if-Extends (tag == 1) _ _ (word-Extends 1 r) (
      if-Extends (tag == 2) _ _ (word-Extends 8 r) (
        if-Extends (tag == 3) _ _
          (checked-Extends _ _ (Extends-trans (word-Extends 1 r) (len_bytes-Extends _)))
          (if-Extends (tag == 4) _ _ (word-Extends 8 r) (
            if-Extends (tag == 5) _ _ (Extends-trans (word-Extends 8 r) (word-Extends 8 _)) (
              if-Extends (tag == 6) _ _ (checked-Extends _ _ (len_bytes-Extends r)) (
                if-Extends (tag == 7) _ _ (checked-Extends _ _ (len_bytes-Extends r)) (
                  if-Extends (tag == 8) _ _ (checked-Extends _ _ (object-Extends r))
                    (Extends-refl r)))))))))

-- Decoding a node, whatever the bytes are, leaves the buffer as it is, never moves the position back
-- nor (from a position inside) past the end, and never clears the failure flag.
pub decode_node-Extends : (p : ℕ) (r : NodeReader) → Extends r (decode_node p r).1
unfolding decode_node
decode_node-Extends p r =
    if-Extends (u8 r).1.fail _ _ (word-Extends 1 r)
      (Extends-trans (word-Extends 1 r) (decode_payload-Extends p (u8 r).0 (u8 r).1))

-- A node takes its tag at least.
decode_node-forward :
    (p : ℕ) (r : NodeReader) (v : Value)
    → (decode_node p r).0 ≡ ok v
    → r.pos < (decode_node p r).1.pos
unfolding decode_node
decode_node-forward p r v h = elim (Bool-cases (u8 r).1.fail) [
  | inl e ↦ absurd (err≢ok (rw e at h))
  | inr e ↦
      rw e (omega (arith, word-there 1 r e, (decode_payload-Extends p (u8 r).0 (u8 r).1).forward))
]
  where
    err≢ok : err node_error ≡ ok v → ⊥
    err≢ok q = cc

decode_nodes-Extends : (p n : ℕ) (r : NodeReader) → Extends r (decode_nodes p n r).1
unfolding decode_nodes
decode_nodes-Extends p zero r = Extends-refl r
decode_nodes-Extends p (suc n) r = elim (Result-cases (decode_node p r).0) [
  | inl (v, e) ↦
      rw e (Extends-trans (decode_node-Extends p r) (decode_nodes-Extends p n (decode_node p r).1))
  | inr (x, e) ↦ rw e (decode_node-Extends p r)
]

-- However large the count that stands in the buffer, a node list that is decoded has that many
-- elements, and no more elements than bytes that were read for them.
pub decode_nodes-length :
    (p n : ℕ) (r : NodeReader) (vals : List Value)
    → (decode_nodes p n r).0 ≡ ok vals
    → (length vals ≡ n) × (r.pos + length vals ≤ (decode_nodes p n r).1.pos)
unfolding decode_nodes
decode_nodes-length p zero r vals h = ground arith
decode_nodes-length p (suc n) r vals h = elim (Result-cases (decode_node p r).0) [
  | inl (v, e) ↦ elim (Result-cases (decode_nodes p n (decode_node p r).1).0) [
    | inl (vs, e') ↦
        ground
          (arith, decode_node-forward p r v e, decode_nodes-length p n (decode_node p r).1 vs e')
    | inr (x, e') ↦ ground arith
  ]
  | inr (x, e) ↦ ground arith
]
