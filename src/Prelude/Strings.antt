-- ===== src/Prelude/Strings.antt =====
-- Comparisons of Go strings, as bytes.
use mathlib.Core.Path.{◌≡◌, refl}
use mathlib.Core.Bool.{Bool, true, false, ◌&&◌}
use mathlib.Core.List.{[], ◌∷◌, ◌++◌}
use go_python.Prelude.Tests.{◌==◌, ==_iff}
use go_python.Prelude.Numbers.{Bytes}

-- `a == b` of two strings, and strings.HasPrefix.
unfoldable pub same : Bytes → Bytes → Bool
same [] [] = true
same (a ∷ s) (b ∷ t) = a == b && same s t
same _ _ = false

unfoldable pub has_prefix : Bytes → Bytes → Bool
has_prefix s [] = true
has_prefix [] (b ∷ p) = false
has_prefix (a ∷ s) (b ∷ p) = a == b && has_prefix s p

&&-true : (x y : Bool) → (x && y) ≡ true → (x ≡ true) × (y ≡ true)
&&-true true y h = (refl, h)
&&-true false y h = cc

-- Equal strings are the same string, and a prefix is what stands in front.
pub same-eq : (s t : Bytes) → same s t ≡ true → s ≡ t
unfolding same
same-eq [] [] h = refl
same-eq [] (b ∷ t) h = cc
same-eq (a ∷ s) [] h = cc
same-eq (a ∷ s) (b ∷ t) h =
    let both = &&-true (a == b) (same s t) h in cc ((==_iff a b).0 both.0, same-eq s t both.1)

pub has_prefix-split : (s p : Bytes) → has_prefix s p ≡ true → (rest : Bytes) × (s ≡ p ++ rest)
unfolding has_prefix
has_prefix-split s [] h = (s, refl)
has_prefix-split [] (b ∷ p) h = cc
has_prefix-split (a ∷ s) (b ∷ p) h =
    let both = &&-true (a == b) (has_prefix s p) h in
    let (rest, e) = has_prefix-split s p both.1 in (rest, cc ((==_iff a b).0 both.0, e))
