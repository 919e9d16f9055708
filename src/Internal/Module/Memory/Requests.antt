-- ===== src/Internal/Module/Memory/Requests.antt =====
-- How many bytes the requests of an instance have.
use go_python.Prelude.{
  ℕ, ◌+◌, ◌*◌, ◌++◌, length-append, ◌≤◌, ◌≡◌, Bytes, List, [], ◌∷◌, length, arith,
}
use go_python.Internal.Proto.Lengths.{length-append_uint64, length-append_bytes}
use go_python.Wire.LittleEndian.{append_u64, le_bytes, length-le_bytes}
use go_python.Internal.Proto.{append_uint64, append_bytes}
use go_python.Internal.Instance.{release_request, append_buffer, pack_ids}

pub length-pack_ids :
    (b : Bytes) (ids : List ℕ) → length (pack_ids b ids) ≡ length b + 8 * length ids
unfolding pack_ids append_u64
length-pack_ids b [] = omega arith
length-pack_ids b (id ∷ ids) = omega (
  arith,
  length-pack_ids (b ++ le_bytes 8 id) ids,
  length-append b (le_bytes 8 id),
  length-le_bytes 8 id,
)

pub length-append_buffer :
    (buf : Bytes) (f : ℕ) (s : Bytes) → length (append_buffer buf f s) ≤ length buf + length s + 40
unfolding append_buffer
length-append_buffer buf f s = omega (
  arith,
  length-append_bytes buf f s,
  length-append_uint64 (append_bytes buf f s) (f + 1) (length s),
)

pub length-release_request :
    (h : ℕ) (ids : List ℕ) → length (release_request h ids) ≤ 60 + 8 * length ids
unfolding release_request
length-release_request h ids = omega (
  arith,
  length-append_uint64 [] 1 h,
  length-pack_ids [] ids,
  length-append_buffer (append_uint64 [] 1 h) 2 (pack_ids [] ids),
)
