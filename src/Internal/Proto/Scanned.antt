-- ===== src/Internal/Proto/Scanned.antt =====
-- The loop over the fields of a message that the appenders wrote.
use go_python.Prelude.{
  ℕ, zero, suc, ◌+◌, ◌*◌, ◌/◌, ◌%◌, ◌^◌, ◌<◌, ◌≤◌, ◌≡◌, refl, ap, ◌∙◌, subst, Bytes, true, false,
  Option, none, some, List, [], ◌∷◌, ◌++◌, append_assoc, length, length-append, length-drop, ltb,
  leb, if◌then◌else◌, Bool, Bool-cases, inl, inr, arith,
}
use go_python.Wire.Reads.{Ahead, Ahead-start, Ahead-step, take-length-append}
use go_python.Internal.Proto.{scan_message, PbReader, read_varint, next, read_bytes, skip, scan}
use go_python.Wire.LittleEndian.{length-le_bytes, le_bytes}
use go_python.Internal.Proto.Message.{
  Field, number, chunk, fixed32, fixed64, append_fields, append_fields-eq, field_number, wire_type,
  IsField, AllFields, tag, tag_range, body, flat,
}
use go_python.Internal.Proto.Varint.{groups, varint, read_varint-ahead}

groups-NonEmpty : (fuel v : ℕ) → 1 ≤ length (groups fuel v)
unfolding groups
groups-NonEmpty zero v = omega arith
groups-NonEmpty (suc fuel) v = elim (Bool-cases (ltb v 0x80)) [
  | inl e ↦ rw e (omega arith)
  | inr e ↦ rw e (omega arith)
]

abbrev pub at : Bytes → ℕ → PbReader
at b k = record { bytes = b; pos = k }

-- Reads of a field's body: the value, whatever message the field stands in and whatever follows.
abbrev pub Reads : {A : Type 0} → (PbReader → Option A) → A → Field → Type 0
Reads read a x =
    (b : Bytes) (k : ℕ) (rest : Bytes)
    → length b < 2 ^ 63
    → Ahead b k (body x ++ rest)
    → read (at b k) ≡ some a

-- The first field at which the loop stops is read as its value.
abbrev pub FirstRead :
    {A : Type 0} → (ℕ → ℕ → Bool) → (ℕ → PbReader → Option A) → (Field → A) → List Field → Type 0
FirstRead stop read value [] = Unit {0}
FirstRead stop read value (x ∷ xs) =
    (stop (field_number x) (wire_type x) ≡ true → Reads (read (wire_type x)) (value x) x)
    × (stop (field_number x) (wire_type x) ≡ false → FirstRead stop read value xs)

-- The value of the first field at which the loop stops.
abbrev pub first : {A : Type 0} → (ℕ → ℕ → Bool) → (Field → A) → List Field → Option A
first stop value [] = none
first stop value (x ∷ xs) =
    let later = first stop value xs in
    if stop (field_number x) (wire_type x) then some (value x) else later

module _ (b : Bytes) (short : length b < 2 ^ 63) where
  next-tag :
      (k g w : ℕ) (rest : Bytes)
      → g < 2 ^ 29
      → w < 8
      → Ahead b k (varint (g * 8 + w) ++ rest)
      → next (at b k) ≡ some (g, w, at b (k + length (varint (g * 8 + w))))
  unfolding next
  next-tag k g w rest lt small h =
      let after = Ahead-step (varint (g * 8 + w)) rest h in
      let some_byte : ltb k (length b) ≡ true =
        ground (arith, after.within, groups-NonEmpty 9 (g * 8 + w)) in
      let field : (g * 8 + w) / 8 % 2 ^ 32 ≡ g = omega arith in
      let wire : (g * 8 + w) % 8 ≡ w = omega arith in
      rw (read_varint-ahead b k (g * 8 + w) rest (omega arith) h.ahead, some_byte, field, wire) refl

  skip-number :
      (k v : ℕ) (rest : Bytes)
      → v < 2 ^ 64
      → Ahead b k (varint v ++ rest)
      → skip 0 (at b k) ≡ some (at b (k + length (varint v)))
  unfolding skip
  skip-number k v rest small h =
      let after = Ahead-step (varint v) rest h in
      let inside : ltb (length b) (k + length (varint v)) ≡ false = ground (arith, after.within) in
      rw (read_varint-ahead b k v rest small h.ahead, inside) refl

  module _ (k : ℕ) (s rest : Bytes) (h : Ahead b k ((varint (length s) ++ s) ++ rest)) where
    past_length : Ahead b (k + length (varint (length s))) (s ++ rest)
    past_length =
        Ahead-step (varint (length s)) (s ++ rest)
          (subst (λ (t : Bytes). Ahead b k t) (append_assoc (varint (length s)) s rest) h)

    past_chunk : Ahead b (k + length (varint (length s)) + length s) rest
    past_chunk = Ahead-step s rest past_length

    read_length : read_varint (at b k) ≡ (length s, at b (k + length (varint (length s))))
    read_length =
        read_varint-ahead b k (length s) (s ++ rest) (omega (arith, past_chunk.within, short))
          (h.ahead ∙ append_assoc (varint (length s)) s rest)

    skip-chunk : skip 2 (at b k) ≡ some (at b (k + length (varint (length s)) + length s))
    unfolding skip
    skip-chunk =
        let e = k + length (varint (length s)) + length s in
        let wrap : e % 2 ^ 64 ≡ e = omega (arith, past_chunk.within, short) in
        let low : leb (2 ^ 63) e ≡ false = ground (arith, past_chunk.within, short) in
        let inside : ltb (length b) e ≡ false = ground (arith, past_chunk.within) in
        rw (read_length, wrap, low, inside) refl

    pub read_bytes-chunk :
        read_bytes (at b k) ≡ some (s, at b (k + length (varint (length s)) + length s))
    unfolding read_bytes
    read_bytes-chunk =
        let e = k + length (varint (length s)) + length s in
        let low : leb (2 ^ 63) e ≡ false = ground (arith, past_chunk.within, short) in
        let inside : ltb (length b) e ≡ false = ground (arith, past_chunk.within) in
        rw (read_length, low, inside, past_length.ahead, take-length-append s rest) refl

  next-end : (k : ℕ) → Ahead b k [] → next (at b k) ≡ none
  unfolding next
  next-end k h =
      let none_left : length b ≤ k =
        omega (arith, length-drop k b, ap (λ (t : Bytes). length t) h.ahead) in
      let over : ltb k (length b) ≡ false = ground (arith, none_left) in rw over refl

  skip-body :
      (x : Field) (k : ℕ) (rest : Bytes)
      → IsField x
      → Ahead b k (body x ++ rest)
      → skip (wire_type x) (at b k) ≡ some (at b (k + length (body x)))
  unfolding skip
  skip-body (number f v) k rest (lt, small) h = skip-number k v rest small h
  skip-body (chunk f s) k rest r h =
      skip-chunk k s rest h
      ∙ ap (λ (n : ℕ). some (at b n)) (omega (arith, length-append (varint (length s)) s))
  skip-body (fixed32 f v) k rest r h =
      let after = Ahead-step (le_bytes 4 v) rest h in
      let inside : ltb (length b) (k + 4) ≡ false =
        ground (arith, after.within, length-le_bytes 4 v) in
      rw (inside, length-le_bytes 4 v) refl
  skip-body (fixed64 f v) k rest r h =
      let after = Ahead-step (le_bytes 8 v) rest h in
      let inside : ltb (length b) (k + 8) ≡ false =
        ground (arith, after.within, length-le_bytes 8 v) in
      rw (inside, length-le_bytes 8 v) refl

  scan-fields :
      {A : Type 0} (stop : ℕ → ℕ → Bool) (read : ℕ → PbReader → Option A) (value : Field → A)
      (xs : List Field) (fuel k : ℕ)
      → AllFields xs
      → FirstRead stop read value xs
      → length xs ≤ fuel
      → Ahead b k (flat xs)
      → scan fuel stop read (at b k) ≡ some (first stop value xs)
  unfolding scan
  scan-fields stop read value [] zero k all reads le h = rw (scan, next-end k h) refl
  scan-fields stop read value [] (suc fuel) k all reads le h = rw (scan, next-end k h) refl
  scan-fields stop read value (x ∷ xs) zero k all reads le h = absurd (omega arith)
  scan-fields stop read value (x ∷ xs) (suc fuel) k (in_range, all) (read_x, reads) le h =
      let (lt, small) = tag_range x in_range in
      let h1 = Ahead-step (tag x) (body x ++ flat xs) h in
      let k1 = k + length (tag x) in
      let tagged = next-tag k (field_number x) (wire_type x) (body x ++ flat xs) lt small h in
      elim (Bool-cases (stop (field_number x) (wire_type x))) [
        | inl e ↦ rw (scan, tagged, e, read_x e b k1 (flat xs) short h1) refl
        | inr e ↦
            rw (scan, tagged, e, skip-body x k1 (flat xs) in_range h1)
              (scan-fields stop read value xs fuel _ all (reads e) (omega arith)
                (Ahead-step (body x) (flat xs) h1))
      ]

length-flat : (xs : List Field) → length xs ≤ length (flat xs)
length-flat [] = omega arith
length-flat (x ∷ xs) = omega (
  arith,
  length-flat xs,
  length-append (tag x) (body x ++ flat xs),
  length-append (body x) (flat xs),
  groups-NonEmpty 9 (field_number x * 8 + wire_type x),
)

-- The loop over a message that the appenders wrote ends, whatever fields it has and in whatever order: it
-- gives the value of the first field at which it stops, and none if there is no such field.
pub scan_message-append_fields :
    {A : Type 0} (stop : ℕ → ℕ → Bool) (read : ℕ → PbReader → Option A) (value : Field → A)
    (xs : List Field)
    → AllFields xs
    → FirstRead stop read value xs
    → length (append_fields [] xs) < 2 ^ 63
    → scan_message (append_fields [] xs) stop read ≡ some (first stop value xs)
scan_message-append_fields stop read value xs all reads short =
    let e = append_fields-eq [] xs all in
    let small : length (flat xs) < 2 ^ 63 = rw e at short in
    rw e (
      scan-fields (flat xs) small stop read value xs (length (flat xs)) 0 all reads (length-flat xs)
        (Ahead-start [] (flat xs)))
