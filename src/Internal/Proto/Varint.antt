-- ===== src/Internal/Proto/Varint.antt =====
-- readVarint reads back what pbAppendVarint writes.
use go_python.Prelude.{
  lt→ltb, ltb→lt, ℕ, zero, suc, ◌+◌, ◌*◌, ◌/◌, ◌%◌, ◌^◌, ◌<◌, ◌≤◌, ◌≡◌, refl, sym, ap, ◌∙◌, Bytes,
  false, [], ◌∷◌, ◌++◌, append_assoc, length, length-append, drop, ltb, if◌then◌else◌, Bool-cases,
  inl, inr, arith,
}
use native.Mathlib.Numerals.{towards_suc}
use native.Mathlib.Nat.{pow-succ'}
use go_python.Internal.Proto.{append_varint_loop, append_varint, read_varint_loop, read_varint}
use go_python.Wire.Reads.{drop-length-append}

-- The groups of seven bits of a number, the lowest first, all but the last with the top bit set.
unfoldable pub groups : ℕ → ℕ → Bytes
groups zero v = (v % 256) ∷ []
groups (suc fuel) v =
    let more = (v % 128 + 128) ∷ groups fuel (v / 128) in
    if ltb v 0x80 then (v % 256) ∷ [] else more

pub length-groups : (fuel v : ℕ) → length (groups fuel v) ≤ suc fuel
unfolding groups
length-groups zero v = omega arith
length-groups (suc fuel) v = elim (Bool-cases (ltb v 0x80)) [
  | inl e ↦ rw e (omega arith)
  | inr e ↦ rw e (omega (arith, length-groups fuel (v / 128)))
]

append_varint_loop-groups :
    (fuel : ℕ) (buf : Bytes) (v : ℕ) → append_varint_loop fuel buf v ≡ buf ++ groups fuel v
unfolding append_varint_loop groups
append_varint_loop-groups zero buf v = refl
append_varint_loop-groups (suc fuel) buf v = elim (Bool-cases (ltb v 0x80)) [
  | inl e ↦ rw e
  | inr e ↦ rw e (
      append_varint_loop-groups fuel (buf ++ (v % 128 + 128) ∷ []) (v / 128)
      ∙ append_assoc buf ((v % 128 + 128) ∷ []) (groups fuel (v / 128)))
]

pow_shift : (s : ℕ) → 2 ^ (s + 7) ≡ 128 * 2 ^ s
pow_shift s = simp towards_suc (omega arith)

regroup : (v s : ℕ) → v % 128 * 2 ^ s + v / 128 * 2 ^ (s + 7) ≡ v * 2 ^ s
regroup v s =
    let split : v ≡ v % 128 + 128 * (v / 128) = omega arith in
    rw (pow_shift s) (omega (arith, ap (λ (t : ℕ). t * 2 ^ s) split))

pair_eq : {a b c d : ℕ} → a ≡ b → c ≡ d → ◌≡◌ {A = ℕ × ℕ} (a, c) (b, d)
pair_eq p q = λ i. (p i, q i)

-- The byte that ends a varint.
read-last :
    (v acc shift n : ℕ) (rest : Bytes)
    → v < 128
    → v * 2 ^ shift < 2 ^ 64
    → read_varint_loop ((v % 256) ∷ rest) acc shift n ≡ (acc + v * 2 ^ shift, n + 1)
unfolding read_varint_loop
read-last v acc shift n rest small fits =
    let same : v % 256 ≡ v = omega arith in
    let low : v % 128 ≡ v = omega arith in
    let whole : v * 2 ^ shift % 2 ^ 64 ≡ v * 2 ^ shift = omega arith in
    rw (same, lt→ltb v 128 small, low, whole)

-- A byte that goes on.
read-group :
    (g acc shift n : ℕ) (rest : Bytes)
    → g < 128
    → g * 2 ^ shift < 2 ^ 64
    → read_varint_loop ((g + 128) ∷ rest) acc shift n
      ≡ read_varint_loop rest (acc + g * 2 ^ shift) (shift + 7) (n + 1)
unfolding read_varint_loop
read-group g acc shift n rest small fits =
    let high : ltb (g + 128) 0x80 ≡ false = ground arith in
    let low : (g + 128) % 128 ≡ g = omega arith in
    let whole : g * 2 ^ shift % 2 ^ 64 ≡ g * 2 ^ shift = omega arith in rw (high, low, whole)

read_varint_loop-groups :
    (fuel v acc shift n : ℕ) (rest : Bytes)
    → v < 128 ^ suc fuel
    → v * 2 ^ shift < 2 ^ 64
    → read_varint_loop (groups fuel v ++ rest) acc shift n
      ≡ (acc + v * 2 ^ shift, n + length (groups fuel v))
unfolding groups
read_varint_loop-groups zero v acc shift n rest small fits =
    read-last v acc shift n rest (omega arith) fits
read_varint_loop-groups (suc fuel) v acc shift n rest small fits = elim (Bool-cases (ltb v 0x80)) [
  | inl e ↦ rw e (read-last v acc shift n rest (ltb→lt v 128 e) fits)
  | inr e ↦ rw e (
      read-group (v % 128) acc shift n _ (omega arith) (omega (arith, regroup v shift))
      ∙ read_varint_loop-groups fuel (v / 128) (acc + v % 128 * 2 ^ shift) (shift + 7) (n + 1) rest
          (omega (arith, pow-succ' 128 (suc fuel))) (omega (arith, regroup v shift))
      ∙ pair_eq (omega (arith, regroup v shift)) (omega arith))
]

-- A varint as the encoder writes it.
abbrev pub varint : ℕ → Bytes
varint v = groups 9 v

pub read_varint-ahead :
    (b : Bytes) (q v : ℕ) (rest : Bytes)
    → v < 2 ^ 64
    → drop q b ≡ varint v ++ rest
    → read_varint (record { bytes = b; pos = q })
      ≡ (v, record { bytes = b; pos = q + length (varint v) })
unfolding read_varint
read_varint-ahead b q v rest small h =
    let loop : read_varint_loop (drop q b) 0 0 0 ≡ (v, length (varint v)) =
      ap (λ t. read_varint_loop t 0 0 0) h
      ∙ read_varint_loop-groups 9 v 0 0 0 rest (omega arith) (omega arith)
      ∙ pair_eq (omega arith) (omega arith) in
    ap (λ (x : ℕ × ℕ). (x.0, record { bytes = b; pos = q + x.1 })) loop

pub append_varint-eq : (buf : Bytes) (v : ℕ) → append_varint buf v ≡ buf ++ varint v
unfolding append_varint
append_varint-eq buf v = append_varint_loop-groups 9 buf v

pub length-append_varint : (buf : Bytes) (v : ℕ) → length (append_varint buf v) ≤ length buf + 10
length-append_varint buf v =
    rw (append_varint-eq buf v) (omega (arith, length-append buf (varint v), length-groups 9 v))

-- The round trip of varints: a uint64 is appended to the buffer, and the reader that stands where it
-- begins, whatever follows, reads the number and stops right behind it; the encoder's ten bytes at most
-- are enough for every uint64.
pub read_varint-append_varint :
    (buf : Bytes) (v : ℕ) (rest : Bytes)
    → v < 2 ^ 64
    → read_varint (record { bytes = append_varint buf v ++ rest; pos = length buf })
      ≡ (v, record { bytes = append_varint buf v ++ rest; pos = length (append_varint buf v) })
read_varint-append_varint buf v rest small = rw append_varint-eq (
    read_varint-ahead ((buf ++ varint v) ++ rest) (length buf) v rest small (
      ap (drop (length buf)) (append_assoc buf (varint v) rest)
      ∙ drop-length-append buf (varint v ++ rest))
    ∙ ap (λ k. (v, record { bytes = (buf ++ varint v) ++ rest; pos = k }))
        (sym (length-append buf (varint v))))
