-- ===== src/Fs/Inside.antt =====
-- Paths that lie in a directory, for the guard of extractStdlibTo.
use go_python.Prelude.{
  ℕ, ◌≡◌, refl, sym, ap, subst, ◌∙◌, Bytes, Bool, true, ◌||◌, List, [], ◌∷◌, ◌++◌, ◌⊎◌, inl, inr,
  has_prefix, has_prefix-split, same, same-eq, Bool-cases, append_assoc,
}
use mathlib.Core.List.{reverse, reverse-cons}
use go_python.Fs.Path.{slash, split, join_slash, is_rooted, normal, rendered, clean, join}
use go_python.Fs.Clean.{
  AllGood, AllFlat, split-AllFlat, normal-AllGood, split-append, split-join_slash, join_slash-split,
}

-- The directory itself, or an entry below it: no segment of the way there is empty, `.` or `..`.
abbrev pub Inside : Bytes → Bytes → Type 0
Inside base path =
    (path ≡ base) ⊎ ((rest : List Bytes) × AllGood rest × (path ≡ base ++ slash ∷ join_slash rest))

-- The guard against zip-slip: the cleaned target must stay under `dir`.
unfoldable pub accepted : Bytes → Bytes → Bool
accepted dir target = has_prefix target (clean dir ++ slash ∷ []) || same target (clean dir)

append-AllGood : (a b : List Bytes) → AllGood a → AllGood b → AllGood (a ++ b)
append-AllGood [] b f g = g
append-AllGood (s ∷ a) b f g = (f.0, append-AllGood a b f.1 g)

suffix-AllGood : (a b : List Bytes) → AllGood (a ++ b) → AllGood b
suffix-AllGood [] b g = g
suffix-AllGood (s ∷ a) b g = suffix-AllGood a b g.1

reverse-AllGood : (ss : List Bytes) → AllGood ss → AllGood (reverse ss)
reverse-AllGood [] g = tt
reverse-AllGood (s ∷ ss) g =
    rw (reverse-cons s ss) (append-AllGood (reverse ss) (s ∷ []) (reverse-AllGood ss g.1) (g.0, tt))

pub AllGood-AllFlat : (ss : List Bytes) → AllGood ss → AllFlat ss
AllGood-AllFlat [] g = tt
AllGood-AllFlat (s ∷ ss) g = (g.0.1, AllGood-AllFlat ss g.1)

-- Clean leaves nothing but names in a rooted path.
pub clean-rooted :
    (path : Bytes)
    → is_rooted path ≡ true
    → (ss : List Bytes) × AllGood ss × (clean path ≡ slash ∷ join_slash ss)
unfolding clean rendered
clean-rooted path h =
    let ss = normal true [] (split path) in
    (
      reverse ss,
      reverse-AllGood ss (normal-AllGood [] (split path) tt (split-AllFlat path)),
      rw h refl,
    )

not_empty : (s t : Bytes) (c : ℕ) → [] ≡ s ++ c ∷ t → ⊥
not_empty [] t c h = cc
not_empty (d ∷ s) t c h = cc

rest-AllGood :
    (ss : List Bytes) (s t : Bytes)
    → AllGood ss
    → join_slash ss ≡ s ++ slash ∷ t
    → AllGood (split t)
unfolding join_slash
rest-AllGood [] s t g e = absurd (not_empty s t slash e)
rest-AllGood (u ∷ ss) s t g e =
    let parts =
      sym (split-join_slash u ss (AllGood-AllFlat (u ∷ ss) g))
      ∙ (ap (λ (p : Bytes). split p) e ∙ split-append s t) in
    suffix-AllGood (split s) (split t) (subst AllGood parts g)

below-Inside :
    (base target rest : Bytes)
    → is_rooted base ≡ true
    → is_rooted target ≡ true
    → clean target ≡ (clean base ++ slash ∷ []) ++ rest
    → Inside (clean base) (clean target)
below-Inside base target rest h k e =
    let (bs, gb, eb) = clean-rooted base h in
    let (ts, gt, et) = clean-rooted target k in
    let e' = e ∙ append_assoc (clean base) (slash ∷ []) rest in
    let tails : join_slash ts ≡ join_slash bs ++ slash ∷ rest =
      cc (sym et ∙ (e' ∙ ap (λ (p : Bytes). p ++ slash ∷ rest) eb)) in
    inr (split rest, rest-AllGood ts (join_slash bs) rest gt tails, rw (join_slash-split rest) e')

-- What the guard accepts lies in the directory.
pub accepted-Inside :
    (dir name : Bytes)
    → is_rooted dir ≡ true
    → accepted dir (join dir name) ≡ true
    → Inside (clean dir) (join dir name)
unfolding accepted join is_rooted
accepted-Inside [] name h a = cc
accepted-Inside (c ∷ dir) name h a =
    elim (Bool-cases
      (has_prefix (clean ((c ∷ dir) ++ slash ∷ name)) (clean (c ∷ dir) ++ slash ∷ []))) [
        | inl p ↦
            let (rest, e) =
              has_prefix-split (clean ((c ∷ dir) ++ slash ∷ name)) (clean (c ∷ dir) ++ slash ∷ [])
                p in
            below-Inside (c ∷ dir) ((c ∷ dir) ++ slash ∷ name) rest h h e
        | inr p ↦ inl (same-eq (clean ((c ∷ dir) ++ slash ∷ name)) (clean (c ∷ dir)) (rw p at a))
      ]
