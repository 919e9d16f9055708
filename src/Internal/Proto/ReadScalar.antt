-- ===== src/Internal/Proto/ReadScalar.antt =====
-- readScalarAtField on a message of scalars.
use go_python.Prelude.{
  ℕ, ◌^◌, ◌<◌, ◌≡◌, refl, sym, ap, ◌∙◌, subst, Bytes, Option, some, List, [], ◌∷◌, length, ◌==◌,
  ==_iff, if◌then◌else◌, Bool-cases, inl, inr,
}
use go_python.Internal.Proto.{
  is_field, or_zero, read_scalar_at_field, is_field, or_zero, read_scalar_at_field, is_field,
  or_zero, read_scalar_at_field, is_field, or_zero, read_scalar_at_field, is_field, or_zero,
  read_scalar_at_field, is_field, or_zero, read_scalar_at_field, is_field, or_zero,
  read_scalar_at_field, is_field, or_zero, read_scalar_at_field, is_field, or_zero,
  read_scalar_at_field, is_field, or_zero, read_scalar_at_field, is_field, or_zero,
  read_scalar_at_field, is_field, or_zero, read_scalar_at_field, only, or_zero, is_field,
  read_scalar_at_field,
}
use go_python.Internal.Proto.Message.{Field, append_fields, field_number, AllFields}
use go_python.Internal.Proto.Typed.{
  Scalar, ScalarKind, kind_of, InRange, append_scalar, read_as, field_of, field_of-IsField,
  append_scalar-field, read_as-Reads, value_as, value_as-field_of, bool_scalar, int32_scalar,
  int64_scalar, uint64_scalar, float_scalar, double_scalar, bytes_scalar,
}
use go_python.Internal.Proto.Scanned.{Reads, FirstRead, first, scan_message-append_fields}

abbrev pub append_scalars : Bytes → List (ℕ × Scalar) → Bytes
append_scalars buf [] = buf
append_scalars buf ((f, x) ∷ xs) = append_scalars (append_scalar buf f x) xs

-- Values in the range of their types, and those in the field f of the type k.
abbrev pub AllScalars : ℕ → ScalarKind → List (ℕ × Scalar) → Type 0
AllScalars f k [] = Unit {0}
AllScalars f k ((g, x) ∷ xs) =
    ((g < 2 ^ 29) × InRange x × (g ≡ f → kind_of x ≡ k)) × AllScalars f k xs

-- The first value in a field.
abbrev pub scalar_in : ℕ → Scalar → List (ℕ × Scalar) → Scalar
scalar_in f missing [] = missing
scalar_in f missing ((g, x) ∷ xs) =
    let later = scalar_in f missing xs in if g == f then x else later

fields : List (ℕ × Scalar) → List Field
fields [] = []
fields (x ∷ xs) = field_of x ∷ fields xs

fields-AllFields :
    (f : ℕ) (k : ScalarKind) (xs : List (ℕ × Scalar)) → AllScalars f k xs → AllFields (fields xs)
unfolding fields
fields-AllFields f k [] all = tt
fields-AllFields f k ((g, x) ∷ xs) ((lt, r, same), all) =
    (field_of-IsField g x lt r, fields-AllFields f k xs all)

append_scalars-fields :
    (buf : Bytes) (xs : List (ℕ × Scalar)) → append_scalars buf xs ≡ append_fields buf (fields xs)
unfolding fields
append_scalars-fields buf [] = refl
append_scalars-fields buf ((f, x) ∷ xs) =
    append_scalars-fields (append_scalar buf f x) xs
    ∙ ap (λ (b : Bytes). append_fields b (fields xs)) (append_scalar-field buf f x)

number-field_of : (g : ℕ) (x : Scalar) → field_number (field_of (g, x)) ≡ g
number-field_of g (bool_scalar v) = refl
number-field_of g (int32_scalar v) = refl
number-field_of g (int64_scalar v) = refl
number-field_of g (uint64_scalar v) = refl
number-field_of g (float_scalar v) = refl
number-field_of g (double_scalar v) = refl
number-field_of g (bytes_scalar s) = refl

value_as-kind :
    (g : ℕ) (x : Scalar) (k : ScalarKind)
    → InRange x
    → kind_of x ≡ k
    → value_as k (field_of (g, x)) ≡ x
value_as-kind g x k r q =
    subst (λ (k' : ScalarKind). value_as k' (field_of (g, x)) ≡ x) q (value_as-field_of g x r)

read_as-kind :
    (g : ℕ) (x : Scalar) (k : ScalarKind)
    → InRange x
    → kind_of x ≡ k
    → Reads (only (read_as k) 0) (value_as k (field_of (g, x))) (field_of (g, x))
read_as-kind g x k r q =
    subst (λ (v : Scalar). Reads (only (read_as k) 0) v (field_of (g, x)))
      (sym (value_as-kind g x k r q))
      (subst (λ (k' : ScalarKind). Reads (only (read_as k') 0) x (field_of (g, x))) q
        (read_as-Reads g x r))

fields-FirstRead :
    (f : ℕ) (k : ScalarKind) (xs : List (ℕ × Scalar))
    → AllScalars f k xs
    → FirstRead (is_field f) (only (read_as k)) (value_as k) (fields xs)
unfolding fields only
fields-FirstRead f k [] all = tt
fields-FirstRead f k ((g, x) ∷ xs) ((lt, r, same), all) = (
  (λ e. read_as-kind g x k r (same (sym (number-field_of g x) ∙ (==_iff _ f).0 e))),
  (λ e. fields-FirstRead f k xs all),
)

first-fields :
    (f : ℕ) (k : ScalarKind) (missing : Scalar) (xs : List (ℕ × Scalar))
    → AllScalars f k xs
    → or_zero missing (some (first (is_field f) (value_as k) (fields xs)))
      ≡ some (scalar_in f missing xs)
unfolding fields or_zero
first-fields f k missing [] all = refl
first-fields f k missing ((g, x) ∷ xs) ((lt, r, same), all) = elim (Bool-cases (g == f)) [
  | inl e ↦
      rw (number-field_of g x, e)
        (ap (λ (v : Scalar). some v) (value_as-kind g x k r (same ((==_iff g f).0 e))))
  | inr e ↦ rw (number-field_of g x, e) (first-fields f k missing xs all)
]

-- Typed messages round trip: of a message that the appenders wrote, of whatever fields and types in
-- whatever order, readScalarAtField with the read of a type gives the first value in the field, be it a
-- bool, a negative int32 or int64, a uint64, a float, a double or a text, and the zero value if the field
-- is not there. The field numbers are below 2 ^ 29, the values in the range of their types, those in the
-- field of the type that is read, and the message has fewer than 2 ^ 63 bytes.
pub read_scalar_at_field-append_scalars :
    (f : ℕ) (k : ScalarKind) (missing : Scalar) (xs : List (ℕ × Scalar))
    → AllScalars f k xs
    → length (append_scalars [] xs) < 2 ^ 63
    → read_scalar_at_field missing (append_scalars [] xs) f (read_as k)
      ≡ some (scalar_in f missing xs)
unfolding read_scalar_at_field
read_scalar_at_field-append_scalars f k missing xs all short =
    let e = append_scalars-fields [] xs in
    rw e (
      ap (λ (o : Option (Option Scalar)). or_zero missing o)
        (scan_message-append_fields (is_field f) (only (read_as k)) (value_as k) (fields xs)
          (fields-AllFields f k xs all) (fields-FirstRead f k xs all) (rw e at short))
      ∙ first-fields f k missing xs all)
