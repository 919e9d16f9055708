-- ===== src/Wire/Decoded.antt =====
-- What decodeNode gives may be sent again: the handles that it makes are live and the instance's own.
use go_python.Prelude.{ℕ, ◌≡◌, refl, Bool, true, false, subst, sym, ◌==◌, if◌then◌else◌}
use go_python.Value.{Value, object_value, ObjectHandle, ObjectValue, handle, Result, ok, err, Error}
use go_python.Wire.Reader.{NodeReader, u8}
use go_python.Wire.Decode.{object_for, checked, decode_payload, decode_node}
use go_python.Wire.Node.{Owned}

abbrev OwnedResult : ℕ → Result Value → Type 0
OwnedResult p (ok v) = Owned p v
OwnedResult p (err e) = Unit {0}

if-handle :
    (c : Bool) (x y : ObjectValue) {h : ObjectHandle}
    → handle x ≡ h
    → handle y ≡ h
    → handle (if c then x else y) ≡ h
if-handle true x y a b = a
if-handle false x y a b = b

-- objectFor wraps the handle as it is.
handle-object_for : (h : ObjectHandle) → handle (object_for h) ≡ h
unfolding object_for
handle-object_for h = if-handle (h.kind == 1) _ _ refl (
    if-handle (h.kind == 2) _ _ refl (
      if-handle (h.kind == 3) _ _ refl (
        if-handle (h.kind == 4) _ _ refl (
          if-handle (h.kind == 5) _ _ refl (
            if-handle (h.kind == 6) _ _ refl
              (if-handle (h.kind == 7) _ _ refl (if-handle (h.kind == 8) _ _ refl refl)))))))

Owned-object_for :
    (p : ℕ) (h : ObjectHandle)
    → h.released ≡ false
    → h.owner ≡ p
    → Owned p (object_value (object_for h))
Owned-object_for p h r o =
    subst (λ (x : ObjectHandle). (x.released ≡ false) × (x.owner ≡ p)) (sym (handle-object_for h))
      (r, o)

if-Owned :
    (p : ℕ) (c : Bool) (x y : Result Value × NodeReader)
    → OwnedResult p x.0
    → OwnedResult p y.0
    → OwnedResult p (if c then x else y).0
if-Owned p true x y a b = a
if-Owned p false x y a b = b

checked-Owned :
    (p : ℕ) (e : Error) (v : Value) (r : NodeReader) → Owned p v → OwnedResult p (checked e v r).0
checked-Owned p e v r own = if-Owned p r.fail (err e, r) (ok v, r) tt own

decode_payload-Owned : (p tag : ℕ) (r : NodeReader) → OwnedResult p (decode_payload p tag r).0
unfolding decode_payload
decode_payload-Owned p tag r = if-Owned p (tag == 0) _ _ tt (
    if-Owned p (tag == 1) _ _ tt (
      if-Owned p (tag == 2) _ _ tt (
        if-Owned p (tag == 3) _ _ (checked-Owned p _ _ _ tt) (
          if-Owned p (tag == 4) _ _ tt (
            if-Owned p (tag == 5) _ _ tt (
              if-Owned p (tag == 6) _ _ (checked-Owned p _ _ _ tt) (
                if-Owned p (tag == 7) _ _ (checked-Owned p _ _ _ tt) (
                  if-Owned p (tag == 8) _ _ (checked-Owned p _ _ _ (Owned-object_for p _ refl refl))
                    tt))))))))

-- Whatever the bytes are, a value that instance p decodes is one that it may send: an object is live
-- and belongs to p.
pub decode_node-Owned :
    (p : ℕ) (r : NodeReader) (v : Value) → (decode_node p r).0 ≡ ok v → Owned p v
unfolding decode_node
decode_node-Owned p r v h =
    subst (OwnedResult p) h
      (if-Owned p (u8 r).1.fail _ _ tt (decode_payload-Owned p (u8 r).0 (u8 r).1))
