-- ===== src/Wire/Reader.antt =====
-- nodeReader of wire.go: a buffer, a position and the sticky failure flag. A read returns its value
-- and the reader afterwards.
use go_python.Prelude.{
  ℕ, ◌+◌, Bytes, Bool, true, false, ◌||◌, [], length, take, drop, ltb, if◌then◌else◌,
}
use go_python.Wire.LittleEndian.{from_le}

pub record NodeReader : Type 0 where
  pub b : Bytes
  pub pos : ℕ
  pub fail : Bool

abbrev pub new_reader : Bytes → NodeReader
new_reader resp = record { b = resp; pos = 0; fail = false }

abbrev pub Read {ℓ} : Type ℓ → Type ℓ
Read A = NodeReader → A × NodeReader

-- need: on an overrun it sets the flag. `len(r.b)-r.pos < n` over Go's signed integers.
unfoldable pub need : ℕ → Read Bool
need n r =
    if r.fail || ltb (length r.b) (r.pos + n) then (false, record r { fail = true }) else (true, r)

-- The bytes r.b[r.pos : r.pos+n], and the step past them.
abbrev advance : NodeReader → ℕ → NodeReader
advance r n = record r { pos = r.pos + n }

abbrev window : NodeReader → ℕ → Bytes
window r n = take n (drop r.pos r.b)

-- The shape of u8, u16, u32 and u64: 0 where the bytes are not there.
unfoldable pub word : ℕ → Read ℕ
word n r =
    let (there, r') = need n r in if there then (from_le (window r' n), advance r' n) else (0, r')

abbrev pub u8 : Read ℕ
u8 = word 1

abbrev pub u16 : Read ℕ
u16 = word 2

abbrev pub u32 : Read ℕ
u32 = word 4

abbrev pub u64 : Read ℕ
u64 = word 8

abbrev pub f64 : Read ℕ
f64 = word 8

-- bytes: its length is an int made of a uint32 or a uint16, never negative on a 64-bit host.
unfoldable pub bytes : ℕ → Read Bytes
bytes n r = let (there, r') = need n r in if there then (window r' n, advance r' n) else ([], r')

-- lenBytes and lenString
unfoldable pub len_bytes : Read Bytes
len_bytes r = let (n, r') = u32 r in bytes n r'
