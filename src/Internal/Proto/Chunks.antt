-- ===== src/Internal/Proto/Chunks.antt =====
-- readScalarAtField with readBytes on a message of any fields.
use go_python.Prelude.{
  ==_iff, ℕ, ◌^◌, ◌<◌, ◌≡◌, ◌≢◌, refl, ap, ◌∙◌, Bytes, false, Option, none, some, List, [], ◌∷◌,
  length, ◌==◌, if◌then◌else◌, arith,
}
use go_python.Internal.Proto.{
  only, is_field, or_zero, read_scalar_at_field, read_bytes, read_bytes_at_field,
}
use go_python.Internal.Proto.Message.{
  Field, number, chunk, fixed32, fixed64, append_fields, field_number, AllFields,
}
use go_python.Internal.Proto.Scanned.{
  FirstRead, first, read_bytes-chunk, scan_message-append_fields,
}

-- The first chunk in a field, and none if the field is not there.
abbrev pub first_chunk : ℕ → List Field → Option Bytes
first_chunk f [] = none
first_chunk f (number g v ∷ xs) = first_chunk f xs
first_chunk f (chunk g s ∷ xs) = let later = first_chunk f xs in if g == f then some s else later
first_chunk f (fixed32 g v ∷ xs) = first_chunk f xs
first_chunk f (fixed64 g v ∷ xs) = first_chunk f xs

-- Only chunks in the field f.
abbrev pub AllChunks : ℕ → List Field → Type 0
AllChunks f [] = Unit {0}
AllChunks f (chunk g s ∷ xs) = AllChunks f xs
AllChunks f (x ∷ xs) = (field_number x ≢ f) × AllChunks f xs

abbrev pub chunk_of : Field → Bytes
chunk_of (chunk f s) = s
chunk_of x = []

pub chunks-FirstRead :
    (f : ℕ) (xs : List Field)
    → AllChunks f xs
    → FirstRead (is_field f) (only read_bytes) chunk_of xs
unfolding only
chunks-FirstRead f [] all = tt
chunks-FirstRead f (number g v ∷ xs) (n, all) =
    ((λ e. absurd (n ((==_iff g f).0 e))), (λ e. chunks-FirstRead f xs all))
chunks-FirstRead f (chunk g s ∷ xs) all = (
  (λ e b k rest short h. rw (only, read_bytes-chunk b short k s rest h) refl),
  (λ e. chunks-FirstRead f xs all),
)
chunks-FirstRead f (fixed32 g v ∷ xs) (n, all) =
    ((λ e. absurd (n ((==_iff g f).0 e))), (λ e. chunks-FirstRead f xs all))
chunks-FirstRead f (fixed64 g v ∷ xs) (n, all) =
    ((λ e. absurd (n ((==_iff g f).0 e))), (λ e. chunks-FirstRead f xs all))

first-chunk :
    (f : ℕ) (xs : List Field) → AllChunks f xs → first (is_field f) chunk_of xs ≡ first_chunk f xs
first-chunk f [] all = refl
first-chunk f (number g v ∷ xs) (n, all) =
    let other : (g == f) ≡ false = ground (arith, n) in rw other (first-chunk f xs all)
first-chunk f (chunk g s ∷ xs) all = rw (first-chunk f xs all) refl
first-chunk f (fixed32 g v ∷ xs) (n, all) =
    let other : (g == f) ≡ false = ground (arith, n) in rw other (first-chunk f xs all)
first-chunk f (fixed64 g v ∷ xs) (n, all) =
    let other : (g == f) ≡ false = ground (arith, n) in rw other (first-chunk f xs all)

abbrev pub or_empty : Option Bytes → Bytes
or_empty none = []
or_empty (some s) = s

zero-or_empty : (o : Option Bytes) → or_zero [] (some o) ≡ some (or_empty o)
unfolding or_zero
zero-or_empty none = refl
zero-or_empty (some s) = refl

-- The loop over a message that the appenders wrote ends, whatever fields the message has and in whatever
-- order: within as many rounds as the message has bytes readScalarAtField finds the first chunk of the
-- field it looks for, byte for byte, or comes to the end and gives no bytes. The field numbers are below
-- 2 ^ 29, the message has fewer than 2 ^ 63 bytes, and the field that is looked for holds only chunks.
pub read_bytes_at_field-append_fields :
    (f : ℕ) (xs : List Field)
    → AllFields xs
    → AllChunks f xs
    → length (append_fields [] xs) < 2 ^ 63
    → read_bytes_at_field (append_fields [] xs) f ≡ some (or_empty (first_chunk f xs))
unfolding read_scalar_at_field
read_bytes_at_field-append_fields f xs all chunks short =
    ap (λ (o : Option (Option Bytes)). or_zero [] o)
      (scan_message-append_fields (is_field f) (only read_bytes) chunk_of xs all
        (chunks-FirstRead f xs chunks) short)
    ∙ zero-or_empty (first (is_field f) chunk_of xs)
    ∙ ap (λ (o : Option Bytes). some (or_empty o)) (first-chunk f xs chunks)
