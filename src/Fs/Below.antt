-- ===== src/Fs/Below.antt =====
-- What a path joined to a directory is, for a name that only descends.
use go_python.Prelude.{
  same-eq, ==_iff, ◌≡◌, ◌≢◌, refl, sym, ap, ◌∙◌, Bytes, true, false, List, [], ◌∷◌, ◌++◌,
  append_assoc, has_prefix, same, Bool-cases, inl, inr,
}
use mathlib.Core.List.{reverse, reverse-cons, reverse-append, reverse-reverse}
use go_python.Fs.Path.{
  up, slash, dot, dot_dot, split, join_slash, is_rooted, is_plain, keep, normal, rendered, clean,
  join,
}
use go_python.Fs.Clean.{Good, AllGood, split-append, split-join_slash}
use go_python.Fs.Host.{host_join}
use go_python.Fs.Inside.{accepted, AllGood-AllFlat}

keep-Good : (kept : List Bytes) (s : Bytes) → Good s → keep true kept s ≡ s ∷ kept
unfolding keep is_plain
keep-Good kept s g = elim (Bool-cases (same s [])) [
  | inl e ↦ cc (e, g.0)
  | inr e ↦ elim (Bool-cases (same s dot)) [
    | inl d ↦ cc (e, d, g.0)
    | inr d ↦ elim (Bool-cases (same s dot_dot)) [
      | inl u ↦ cc (e, d, u, g.0)
      | inr u ↦ rw (e, d, u) refl
    ]
  ]
]

normal-append :
    (kept a b : List Bytes) → normal true kept (a ++ b) ≡ normal true (normal true kept a) b
unfolding normal
normal-append kept [] b = refl
normal-append kept (s ∷ a) b = normal-append (keep true kept s) a b

normal-AllGood' : (kept ss : List Bytes) → AllGood ss → normal true kept ss ≡ reverse ss ++ kept
unfolding normal
normal-AllGood' kept [] g = refl
normal-AllGood' kept (s ∷ ss) g =
    rw
      (
        keep-Good kept s g.0,
        normal-AllGood' (s ∷ kept) ss g.1,
        reverse-cons s ss,
        append_assoc (reverse ss) (s ∷ []) kept,
      )
      refl

join_slash-append :
    (s : Bytes) (a : List Bytes) (t : Bytes) (b : List Bytes)
    → join_slash ((s ∷ a) ++ t ∷ b) ≡ join_slash (s ∷ a) ++ slash ∷ join_slash (t ∷ b)
unfolding join_slash
join_slash-append s [] t b = refl
join_slash-append s (u ∷ a) t b =
    rw
      (
        join_slash-append u a t b,
        append_assoc s (slash ∷ join_slash (u ∷ a)) (slash ∷ join_slash (t ∷ b)),
      )
      refl

below-rendered :
    (kept : List Bytes) (n : Bytes) (ns : List Bytes)
    → rendered true kept ≢ slash ∷ []
    → rendered true (kept ++ n ∷ ns) ≡ rendered true kept ++ slash ∷ join_slash (n ∷ ns)
unfolding rendered
below-rendered [] n ns h = absurd (h (unfold join_slash in refl))
below-rendered (s ∷ kept) n ns h = ap (λ (p : Bytes). slash ∷ p) (join_slash-append s kept n ns)

clean-below :
    (dir n : Bytes) (ns : List Bytes)
    → is_rooted dir ≡ true
    → clean dir ≢ slash ∷ []
    → AllGood (n ∷ ns)
    → is_rooted (dir ++ slash ∷ join_slash (n ∷ ns)) ≡ true
    → clean (dir ++ slash ∷ join_slash (n ∷ ns)) ≡ clean dir ++ slash ∷ join_slash (n ∷ ns)
unfolding clean
clean-below dir n ns r h g r' =
    let kept = normal true [] (split dir) in
    rw
      (
        r',
        r,
        split-append dir (join_slash (n ∷ ns)),
        split-join_slash n ns (AllGood-AllFlat (n ∷ ns) g),
        normal-append [] (split dir) (n ∷ ns),
        normal-AllGood' kept (n ∷ ns) g,
        reverse-append (reverse (n ∷ ns)) kept,
        reverse-reverse (n ∷ ns),
      )
      (below-rendered (reverse kept) n ns (rw r at h))

not_root : (root : Bytes) → clean root ≢ slash ∷ [] → same root (slash ∷ []) ≡ false
not_root root h = elim (Bool-cases (same root (slash ∷ []))) [
  | inl e ↦ absurd (
      h (
        ap (λ (p : Bytes). clean p) (same-eq root (slash ∷ []) e)
        ∙ unfold clean normal keep up rendered split is_rooted join_slash same in refl))
  | inr e ↦ e
]

has_prefix-append : (p s : Bytes) → has_prefix (p ++ s) p ≡ true
unfolding has_prefix
has_prefix-append [] s = refl
has_prefix-append (c ∷ p) s = rw ((==_iff c c).1 refl) (has_prefix-append p s)

below-accepted : (dir name : Bytes) → accepted dir (clean dir ++ slash ∷ name) ≡ true
unfolding accepted
below-accepted dir name =
    let q : has_prefix (clean dir ++ slash ∷ name) (clean dir ++ slash ∷ []) ≡ true =
      rw (sym (append_assoc (clean dir) (slash ∷ []) name))
        (has_prefix-append (clean dir ++ slash ∷ []) name) in
    rw q refl

-- A path in `root` through directories none of which is empty, `.` or `..` names its entry of the
-- cleaned root, to the file system scoped to `root` and to the extraction, whose guard accepts it. The
-- root is an absolute path, and not that of the whole file system.
pub host_join-below :
    (root n : Bytes) (ns : List Bytes)
    → is_rooted root ≡ true
    → clean root ≢ slash ∷ []
    → AllGood (n ∷ ns)
    → (host_join root (join_slash (n ∷ ns)) ≡ clean root ++ slash ∷ join_slash (n ∷ ns))
      × (join root (join_slash (n ∷ ns)) ≡ clean root ++ slash ∷ join_slash (n ∷ ns))
      × (accepted root (join root (join_slash (n ∷ ns))) ≡ true)
unfolding host_join is_rooted join same clean
host_join-below [] n ns r h g = cc
host_join-below (c ∷ root) n ns r h g =
    let e = clean-below (c ∷ root) n ns r h g r in
    (rw (not_root (c ∷ root) h) e, e, rw e (below-accepted (c ∷ root) (join_slash (n ∷ ns))))
