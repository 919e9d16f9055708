-- ===== src/Internal/Proto/Lengths.antt =====
-- How many bytes a field takes.
use go_python.Prelude.{ℤ, ℕ, ◌+◌, ◌*◌, ◌%◌, length-append, ◌^◌, ◌≤◌, Bytes, length, arith}
use go_python.Internal.Proto.Varint.{length-append_varint}
use go_python.Wire.LittleEndian.{to_uint64}
use go_python.Internal.Proto.{append_uint64, append_int32, append_bytes, append_varint, append_tag}

pub length-append_uint64 :
    (buf : Bytes) (f v : ℕ) → length (append_uint64 buf f v) ≤ length buf + 20
unfolding append_uint64 append_tag
length-append_uint64 buf f v =
    let tag = append_varint buf ((f * 8 + 0) % 2 ^ 32) in
    omega (arith, length-append_varint buf ((f * 8 + 0) % 2 ^ 32), length-append_varint tag v)

pub length-append_int32 :
    (buf : Bytes) (f : ℕ) (v : ℤ) → length (append_int32 buf f v) ≤ length buf + 20
unfolding append_int32 append_uint64
length-append_int32 buf f v = length-append_uint64 buf f (to_uint64 v)

pub length-append_bytes :
    (buf : Bytes) (f : ℕ) (s : Bytes) → length (append_bytes buf f s) ≤ length buf + 20 + length s
unfolding append_bytes append_tag
length-append_bytes buf f s =
    let tag = append_varint buf ((f * 8 + 2) % 2 ^ 32) in
    omega (
      arith,
      length-append_varint buf ((f * 8 + 2) % 2 ^ 32),
      length-append_varint tag (length s),
      length-append (append_varint tag (length s)) s,
    )
