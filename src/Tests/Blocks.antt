-- ===== src/Tests/Blocks.antt =====
-- The blocks of a memory in the tests: the bytes at each pointer.
use go_python.Prelude.{
  ℕ, ◌≡◌, refl, ap, Bytes, Option, none, some, [], ◌∷◌, length, ◌==◌, ==_iff, false, if◌then◌else◌,
  arith,
}

abbrev pub put : ℕ → Bytes → (ℕ → Bytes) → ℕ → Bytes
put p b mem q = if q == p then b else mem q

abbrev pub block : ℕ → Bytes → Option Bytes
block n b = if n == 0 then some [] else if length b == n then some b else none

pub block-length : (b : Bytes) → block (length b) b ≡ some b
block-length [] = refl
block-length (c ∷ b) =
    let some_bytes : (length (c ∷ b) == 0) ≡ false = ground arith in
    rw (some_bytes, (==_iff (length (c ∷ b)) (length (c ∷ b))).1 refl) refl

pub put-here : (p : ℕ) (b : Bytes) (mem : ℕ → Bytes) → put p b mem p ≡ b
put-here p b mem = rw ((==_iff p p).1 refl) refl

pub stored_state : {A : Type 0} (x y : A) → ◌≡◌ {A = Option A} (some x) (some y) → x ≡ y
stored_state x y h = ap (λ o. elim o [ none ↦ x | some z ↦ z ]) h
