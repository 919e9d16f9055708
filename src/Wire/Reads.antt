-- ===== src/Wire/Reads.antt =====
-- What the reads of nodeReader do on a buffer that holds the bytes which they expect.

use go_python.Prelude.{
  subst, append_assoc, ◌%◌, ℕ, zero, suc, ◌+◌, ◌<◌, ◌≤◌, ◌^◌, ◌≡◌, refl, sym, ap, ◌∙◌, Bytes, true,
  false, List, [], ◌∷◌, ◌++◌, length, length-append, take, drop, length-drop, arith,
}
use go_python.Wire.LittleEndian.{len_prefixed, from_le, le_bytes, length-le_bytes, from_le-le_bytes}
use go_python.Wire.Reader.{u8, len_bytes, NodeReader, need, word, bytes}

-- A reader of `b` at position q that has not failed.
abbrev pub at : Bytes → ℕ → NodeReader
at b q = record { b = b; pos = q; fail = false }

-- The bytes from position q of the buffer `b` on are `xs`.
pub record Ahead (b : Bytes) (q : ℕ) (xs : Bytes) : Type 0 where
  pub within : q ≤ length b
  pub ahead : drop q b ≡ xs

drop-nil {ℓ} : {A : Type ℓ} (n : ℕ) → drop {A = A} n [] ≡ []
drop-nil zero = refl
drop-nil (suc n) = refl

drop-add {ℓ} : {A : Type ℓ} (m n : ℕ) (xs : List A) → drop (m + n) xs ≡ drop n (drop m xs)
drop-add zero n xs = ap (λ k. drop k xs) {y = n} (omega arith)
drop-add (suc m) n [] = ap (λ k. drop k []) {y = suc (m + n)} (omega arith) ∙ sym (drop-nil n)
drop-add (suc m) n (x ∷ xs) =
    ap (λ k. drop k (x ∷ xs)) {y = suc (m + n)} (omega arith) ∙ drop-add m n xs

pub drop-length-append {ℓ} : {A : Type ℓ} (xs ys : List A) → drop (length xs) (xs ++ ys) ≡ ys
drop-length-append [] ys = refl
drop-length-append (x ∷ xs) ys = drop-length-append xs ys

pub take-length-append {ℓ} : {A : Type ℓ} (xs ys : List A) → take (length xs) (xs ++ ys) ≡ xs
take-length-append [] ys = refl
take-length-append (x ∷ xs) ys = ap (λ t. x ∷ t) (take-length-append xs ys)

pub Ahead-start : (pre xs : Bytes) → Ahead (pre ++ xs) (length pre) xs
Ahead-start pre xs = record {
  within = omega (arith, length-append pre xs);
  ahead = drop-length-append pre xs;
}

module _ {b : Bytes} {q : ℕ} where
  room : (enc rest : Bytes) → Ahead b q (enc ++ rest) → q + length enc ≤ length b
  room enc rest h =
      omega (arith, h.within, length-drop q b, ap length h.ahead, length-append enc rest)

  -- Past the first bytes stands the rest.
  pub Ahead-step : (enc rest : Bytes) → Ahead b q (enc ++ rest) → Ahead b (q + length enc) rest
  Ahead-step enc rest h = record {
    within = room enc rest h;
    ahead =
        drop-add q (length enc) b ∙ ap (drop (length enc)) h.ahead ∙ drop-length-append enc rest;
  }

  need-there :
      (enc rest : Bytes) → Ahead b q (enc ++ rest) → need (length enc) (at b q) ≡ (true, at b q)
  unfolding need
  need-there enc rest h = let r : q + length enc ≤ length b = room enc rest h in ground arith

  pub bytes-Ahead :
      (enc rest : Bytes)
      → Ahead b q (enc ++ rest)
      → bytes (length enc) (at b q) ≡ (enc, at b (q + length enc))
  unfolding bytes
  bytes-Ahead enc rest h = rw (need-there enc rest h) (
      ap (λ t. (t, at b (q + length enc)))
        (ap (take (length enc)) h.ahead ∙ take-length-append enc rest))

  word-of :
      (enc rest : Bytes)
      → Ahead b q (enc ++ rest)
      → word (length enc) (at b q) ≡ (from_le enc, at b (q + length enc))
  unfolding word
  word-of enc rest h = rw (need-there enc rest h) (
      ap (λ t. (from_le t, at b (q + length enc)))
        (ap (take (length enc)) h.ahead ∙ take-length-append enc rest))

  -- A word of w bytes is read back as the number that was written.
  pub word-Ahead :
      (w v : ℕ) (rest : Bytes)
      → v < 256 ^ w
      → Ahead b q (le_bytes w v ++ rest)
      → word w (at b q) ≡ (v, at b (q + w))
  word-Ahead w v rest lt h =
      rw (length-le_bytes w v, from_le-le_bytes w v lt) at (word-of (le_bytes w v) rest h)

  pub Ahead-word :
      (w v : ℕ) (rest : Bytes) → Ahead b q (le_bytes w v ++ rest) → Ahead b (q + w) rest
  Ahead-word w v rest h = rw (length-le_bytes w v) at (Ahead-step (le_bytes w v) rest h)

  pub byte-Ahead : (x : ℕ) (rest : Bytes) → Ahead b q (x ∷ rest) → u8 (at b q) ≡ (x, at b (q + 1))
  unfolding from_le
  byte-Ahead x rest h = word-of (x ∷ []) rest h ∙ ap (λ v. (v, at b (q + 1))) {y = x} (omega arith)

  pub Ahead-byte : (x : ℕ) (rest : Bytes) → Ahead b q (x ∷ rest) → Ahead b (q + 1) rest
  Ahead-byte x rest h = Ahead-step (x ∷ []) rest h

module _ {b : Bytes} {q : ℕ} (s rest : Bytes) (lt : length s < 2 ^ 32)
    (h : Ahead b q (len_prefixed s ++ rest)) where
  length-Ahead : Ahead b q (le_bytes 4 (length s) ++ (s ++ rest))
  length-Ahead =
      let e : length s % 2 ^ 32 ≡ length s = omega arith in
      subst (Ahead b q) (append_assoc _ s rest ∙ ap (λ n. le_bytes 4 n ++ (s ++ rest)) e) h

  pub len_bytes-Ahead : len_bytes (at b q) ≡ (s, at b (q + 4 + length s))
  unfolding len_bytes
  len_bytes-Ahead =
      rw (word-Ahead 4 (length s) (s ++ rest) lt length-Ahead)
        (bytes-Ahead s rest (Ahead-word 4 (length s) (s ++ rest) length-Ahead))

  pub Ahead-len_bytes : Ahead b (q + 4 + length s) rest
  Ahead-len_bytes = Ahead-step s rest (Ahead-word 4 (length s) (s ++ rest) length-Ahead)
