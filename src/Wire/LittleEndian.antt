-- ===== src/Wire/LittleEndian.antt =====
-- encoding/binary's little-endian words, the append helpers of wire.go, the two's complement reading
-- of a word, and the big-endian magnitude of a big.Int.
use go_python.Prelude.{
  ℕ, zero, suc, ◌+◌, ◌-◌, ◌*◌, ◌/◌, ◌%◌, ◌^◌, ◌<◌, ◌≡◌, refl, ap, Bytes, [], ◌∷◌, ◌++◌, ltb,
  if◌then◌else◌, length, arith, ℤ, pos, negsuc,
}
use go_python.Value.Convert.{InInt64}
use native.Mathlib.Nat.{pow-succ'}

-- The w low bytes of v, the lowest first.
unfoldable pub le_bytes : ℕ → ℕ → Bytes
le_bytes zero v = []
le_bytes (suc w) v = (v % 256) ∷ le_bytes w (v / 256)

-- The number that little-endian bytes stand for.
unfoldable pub from_le : Bytes → ℕ
from_le [] = 0
from_le (b ∷ bs) = b + 256 * from_le bs

unfoldable pub append_u16 : Bytes → ℕ → Bytes
append_u16 b v = b ++ le_bytes 2 v

unfoldable pub append_u32 : Bytes → ℕ → Bytes
append_u32 b v = b ++ le_bytes 4 v

unfoldable pub append_u64 : Bytes → ℕ → Bytes
append_u64 b v = b ++ le_bytes 8 v

-- The float is its bit pattern.
unfoldable pub append_f64 : Bytes → ℕ → Bytes
append_f64 b v = b ++ le_bytes 8 v

unfoldable pub append_len_bytes : Bytes → Bytes → Bytes
unfolding append_u32
append_len_bytes b s = append_u32 b (length s % 2 ^ 32) ++ s

-- uint64(x) of an int64, and int64(x) of a uint64.
unfoldable pub to_uint64 : ℤ → ℕ
to_uint64 (pos n) = n % 2 ^ 64
to_uint64 (negsuc n) = 2 ^ 64 - 1 - n % 2 ^ 64

unfoldable pub to_int64 : ℕ → ℤ
to_int64 w = if ltb w (2 ^ 63) then pos w else negsuc (2 ^ 64 - 1 - w)

-- int(int32(x)) of a uint32
unfoldable pub to_int32 : ℕ → ℤ
to_int32 w = if ltb w (2 ^ 31) then pos w else negsuc (2 ^ 32 - 1 - w)

-- An int64 comes back from its bit pattern, and the pattern is a 64-bit word.
pub to_int64-to_uint64 : (x : ℤ) → InInt64 x → (to_int64 (to_uint64 x) ≡ x) × (to_uint64 x < 2 ^ 64)
unfolding to_int64 to_uint64
to_int64-to_uint64 (pos n) h = (ground arith, omega arith)
to_int64-to_uint64 (negsuc n) h = (ground arith, omega arith)

pub length-le_bytes : (w v : ℕ) → length (le_bytes w v) ≡ w
unfolding le_bytes
length-le_bytes zero v = refl
length-le_bytes (suc w) v = ap suc (length-le_bytes w (v / 256))

-- A number below 256 ^ w comes back from its w bytes.
pub from_le-le_bytes : (w v : ℕ) → v < 256 ^ w → from_le (le_bytes w v) ≡ v
unfolding from_le le_bytes
from_le-le_bytes zero v h = omega arith
from_le-le_bytes (suc w) v h =
    omega (arith, from_le-le_bytes w (v / 256) (omega (arith, pow-succ' 256 w)))

-- A text with its length in front, as four bytes.
abbrev pub len_prefixed : Bytes → Bytes
len_prefixed s = le_bytes 4 (length s % 2 ^ 32) ++ s
