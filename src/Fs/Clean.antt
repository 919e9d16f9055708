-- ===== src/Fs/Clean.antt =====
-- Where a cleaned path leads.
use go_python.Prelude.{
  ==_iff, same-eq, ℕ, ◌≡◌, refl, sym, ap, ◌∙◌, Bytes, Bool, true, false, not, ◌&&◌, List, [], ◌∷◌,
  ◌++◌, ◌==◌, same, Bool-cases, inl, inr,
}
use mathlib.Core.Bool.{true≢false}
use go_python.Fs.Path.{up, slash, dot, dot_dot, push, split, join_slash, is_plain, keep, normal}

-- A segment that names an entry of a directory: not empty, `.` or `..`, and with no slash in it.
unfoldable pub no_slash : Bytes → Bool
no_slash [] = true
no_slash (c ∷ s) = not (c == slash) && no_slash s

abbrev pub Good : Bytes → Type 0
Good s = (is_plain s ≡ true) × (no_slash s ≡ true)

abbrev pub AllGood : List Bytes → Type 0
AllGood [] = Unit {0}
AllGood (s ∷ ss) = Good s × AllGood ss

abbrev pub AllFlat : List Bytes → Type 0
AllFlat [] = Unit {0}
AllFlat (s ∷ ss) = (no_slash s ≡ true) × AllFlat ss

push-AllFlat : (c : ℕ) (ss : List Bytes) → (c == slash) ≡ false → AllFlat ss → AllFlat (push c ss)
unfolding no_slash
push-AllFlat c [] h f = (rw h refl, tt)
push-AllFlat c (s ∷ ss) h f = (rw h f.0, f.1)

pub split-AllFlat : (s : Bytes) → AllFlat (split s)
unfolding split no_slash
split-AllFlat [] = (refl, tt)
split-AllFlat (c ∷ s) = elim (Bool-cases (c == slash)) [
  | inl e ↦ rw e (refl, split-AllFlat s)
  | inr e ↦ rw e (push-AllFlat c (split s) e (split-AllFlat s))
]

plain-no-dots : (t : Bytes) → same t dot_dot ≡ true → is_plain t ≡ true → ⊥
unfolding is_plain same
plain-no-dots t e h =
    let q = same-eq t dot_dot e in true≢false (sym h ∙ ap (λ (u : Bytes). is_plain u) q)

-- Segments that `..` cannot reach above the root.
up-AllGood : (kept : List Bytes) → AllGood kept → AllGood (up true kept)
unfolding up is_plain
up-AllGood [] g = g
up-AllGood (t ∷ kept) g = elim (Bool-cases (same t dot_dot)) [
  | inl e ↦ absurd (plain-no-dots t e g.0.0)
  | inr e ↦ rw e g.1
]

keep-AllGood :
    (kept : List Bytes) (s : Bytes) → AllGood kept → no_slash s ≡ true → AllGood (keep true kept s)
unfolding keep is_plain
keep-AllGood kept s g f = elim (Bool-cases (same s [])) [
  | inl e ↦ rw e g
  | inr e ↦ elim (Bool-cases (same s dot)) [
    | inl d ↦ rw (e, d) g
    | inr d ↦ elim (Bool-cases (same s dot_dot)) [
      | inl u ↦ rw (e, d, u) (up-AllGood kept g)
      | inr u ↦ rw (e, d, u) ((rw (e, d, u) refl, f), g)
    ]
  ]
]

pub normal-AllGood :
    (kept ss : List Bytes) → AllGood kept → AllFlat ss → AllGood (normal true kept ss)
unfolding normal
normal-AllGood kept [] g f = g
normal-AllGood kept (s ∷ ss) g f =
    normal-AllGood (keep true kept s) ss (keep-AllGood kept s g f.0) f.1

-- Segments of a path put together of two.
split-NonEmpty : (s : Bytes) → (t : Bytes) × (ts : List Bytes) × (split s ≡ t ∷ ts)
unfolding split
split-NonEmpty [] = ([], [], refl)
split-NonEmpty (c ∷ s) = elim (Bool-cases (c == slash)) [
  | inl e ↦ ([], split s, rw e refl)
  | inr e ↦ let (t, ts, q) = split-NonEmpty s in (c ∷ t, ts, rw (e, q) refl)
]

pub split-append : (s t : Bytes) → split (s ++ slash ∷ t) ≡ split s ++ split t
unfolding split
split-append [] t = refl
split-append (c ∷ s) t = elim (Bool-cases (c == slash)) [
  | inl e ↦ rw (e, split-append s t) refl
  | inr e ↦ let (u, us, q) = split-NonEmpty s in rw (e, split-append s t, q) refl
]

no_slash-cons :
    (c : ℕ) (s : Bytes) → no_slash (c ∷ s) ≡ true → ((c == slash) ≡ false) × (no_slash s ≡ true)
unfolding no_slash
no_slash-cons c s h = elim (Bool-cases (c == slash)) [
  | inl e ↦ absurd (true≢false (sym h ∙ rw e refl))
  | inr e ↦ (e, cc (e, h))
]

split-flat : (s : Bytes) → no_slash s ≡ true → split s ≡ s ∷ []
unfolding split
split-flat [] h = refl
split-flat (c ∷ s) h = let both = no_slash-cons c s h in rw (both.0, split-flat s both.1) refl

join_slash-push :
    (c : ℕ) (s : Bytes) (ss : List Bytes) → join_slash (push c (s ∷ ss)) ≡ c ∷ join_slash (s ∷ ss)
unfolding join_slash
join_slash-push c s [] = refl
join_slash-push c s (t ∷ ss) = refl

pub join_slash-split : (s : Bytes) → join_slash (split s) ≡ s
unfolding split join_slash
join_slash-split [] = refl
join_slash-split (c ∷ s) = elim (Bool-cases (c == slash)) [
  | inl e ↦
      let (u, us, q) = split-NonEmpty s in
      let back : join_slash (u ∷ us) ≡ s = rw (sym q) (join_slash-split s) in
      rw (e, q, back, (==_iff c slash).0 e) refl
  | inr e ↦
      let (u, us, q) = split-NonEmpty s in
      let back : join_slash (u ∷ us) ≡ s = rw (sym q) (join_slash-split s) in
      rw (e, q) (join_slash-push c u us ∙ ap (λ (t : Bytes). c ∷ t) back)
]

pub split-join_slash :
    (s : Bytes) (ss : List Bytes) → AllFlat (s ∷ ss) → split (join_slash (s ∷ ss)) ≡ s ∷ ss
unfolding join_slash
split-join_slash s [] f = split-flat s f.0
split-join_slash s (t ∷ ss) f =
    rw (split-append s (join_slash (t ∷ ss)), split-flat s f.0, split-join_slash t ss f.1) refl
