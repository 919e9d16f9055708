-- ===== src/Internal/Transport.antt =====
-- The response of a bridge export is a message with the envelope in field 1; valueOp takes it out.
use go_python.Prelude.{◌^◌, ◌<◌, ◌≡◌, refl, Bytes, none, some, [], ◌∷◌, length, arith}
use go_python.Value.{ok, err, errorf}
use go_python.Internal.Proto.{
  append_bytes, extract_error, read_bytes_at_field, is_field, only, read_bytes,
}
use go_python.Internal.Proto.Lengths.{length-append_bytes}
use go_python.Internal.Proto.Message.{chunk}
use go_python.Internal.Proto.Scanned.{scan_message-append_fields}
use go_python.Internal.Proto.Chunks.{read_bytes_at_field-append_fields, chunks-FirstRead, chunk_of}
use go_python.Internal.Instance.{Guest, payload}

module _ (s : Bytes) (small : length s < 2 ^ 62) where
  envelope : read_bytes_at_field (append_bytes [] 1 s) 1 ≡ some s
  envelope =
      read_bytes_at_field-append_fields 1 (chunk 1 s ∷ []) ((omega arith, omega arith), tt) tt
        (omega (arith, length-append_bytes [] 1 s))

  no_error : extract_error (append_bytes [] 1 s) ≡ some none
  unfolding extract_error
  no_error =
      rw
        (
          extract_error,
          scan_message-append_fields (is_field 15) (only read_bytes) chunk_of (chunk 1 s ∷ [])
              ((omega arith, omega arith), tt) (chunks-FirstRead 15 (chunk 1 s ∷ []) tt)
              (omega (arith, length-append_bytes [] 1 s)),
        )
        refl

  pub an_error : extract_error (append_bytes [] 15 s) ≡ some (some (errorf s))
  unfolding extract_error
  an_error =
      rw
        (
          extract_error,
          scan_message-append_fields (is_field 15) (only read_bytes) chunk_of (chunk 15 s ∷ [])
              ((omega arith, omega arith), tt) (chunks-FirstRead 15 (chunk 15 s ∷ []) tt)
              (omega (arith, length-append_bytes [] 15 s)),
        )
        refl

-- What pbAppendBytes and pbAppendString write of fewer than 2 ^ 62 bytes, valueOp reads back: a response
-- of the guest with an envelope in field 1 is not read as an error, the reader's loops end, and the
-- payload is the envelope byte for byte; one with a text in field 15 is the error of that text.
pub payload-append_bytes :
    (guest : Guest) (s : Bytes)
    → length s < 2 ^ 62
    → (payload guest (ok (append_bytes [] 1 s)) ≡ ok s)
      × (payload guest (ok (append_bytes [] 15 s)) ≡ err (errorf s))
unfolding payload
payload-append_bytes guest s small =
    (rw (payload, no_error s small, envelope s small) refl, rw (payload, an_error s small) refl)
