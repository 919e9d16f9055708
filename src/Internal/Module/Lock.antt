-- ===== src/Internal/Module/Lock.antt =====
-- The lock m.mu of the module in internal/python.go: invoke holds it, and handleCallback lets go of it
-- around the handler, which may enter the module again. A mutex is taken and let go of in one step.
use go_python.Prelude.{
  subst, ℕ, ◌≡◌, ◌≢◌, refl, sym, ap, ◌∙◌, ◌⊎◌, inl, inr, Option, none, some, List, [], ◌∷◌, ◌==◌,
  ==_iff, if◌then◌else◌, Bool-cases, Option-cases,
}

-- A call of invoke that has not returned: its export runs, or it waits for a handler that the export
-- called back.
pub data Frame : Type 0 where
  inside in_handler : Frame

-- Who holds m.mu, and the calls of each goroutine, the innermost first.
pub record Locks : Type 0 where
  pub holder : Option ℕ
  pub frames : ℕ → List Frame

abbrev pub with_frames : ℕ → List Frame → (ℕ → List Frame) → ℕ → List Frame
with_frames g fs frames h = if g == h then fs else frames h

-- m.mu.Lock at the start of invoke, and the deferred Unlock at its end.
unfoldable pub entered : ℕ → Locks → Locks
entered g s = record { holder = some g; frames = with_frames g (inside ∷ s.frames g) s.frames }

unfoldable pub left : ℕ → List Frame → Locks → Locks
left g rest s = record { holder = none; frames = with_frames g rest s.frames }

-- m.mu.Unlock before the handler of handleCallback, and the deferred Lock after it.
unfoldable pub called_back : ℕ → List Frame → Locks → Locks
called_back g rest s = record { holder = none; frames = with_frames g (in_handler ∷ rest) s.frames }

unfoldable pub resumed : ℕ → List Frame → Locks → Locks
resumed g rest s = record { holder = some g; frames = with_frames g (inside ∷ rest) s.frames }

-- A step of the goroutine g. Lock waits until the mutex is free; the goroutine that lets go of it runs in
-- its innermost call.
pub data LockStep (g : ℕ) : Locks → Locks → Type 0 where
  enters : (s : Locks) → s.holder ≡ none → LockStep g s (entered g s)
  leaves :
      (rest : List Frame) (s : Locks)
      → s.holder ≡ some g
      → s.frames g ≡ inside ∷ rest
      → LockStep g s (left g rest s)
  calls_back :
      (rest : List Frame) (s : Locks)
      → s.holder ≡ some g
      → s.frames g ≡ inside ∷ rest
      → LockStep g s (called_back g rest s)
  resumes :
      (rest : List Frame) (s : Locks)
      → s.holder ≡ none
      → s.frames g ≡ in_handler ∷ rest
      → LockStep g s (resumed g rest s)

pub data Schedule (s : Locks) : Locks → Type 0 where
  start : Schedule s s
  step : {t u : Locks} → Schedule s t → (g : ℕ) → LockStep g t u → Schedule s u

-- The calls that wait for a handler.
abbrev pub Suspended : List Frame → Type 0
Suspended [] = Unit {0}
Suspended (inside ∷ fs) = ⊥
Suspended (in_handler ∷ fs) = Suspended fs

-- The holder's innermost call is inside, and every other call waits.
abbrev pub Exclusive : Option ℕ → ℕ → List Frame → Type 0
Exclusive none g fs = Suspended fs
Exclusive (some h) g fs =
    ((h ≡ g) × ((rest : List Frame) × (fs ≡ inside ∷ rest) × Suspended rest))
    ⊎ ((h ≢ g) × Suspended fs)

abbrev pub IsExclusive : Locks → Type 0
IsExclusive s = (g : ℕ) → Exclusive s.holder g (s.frames g)

same_frames : (g : ℕ) (fs : List Frame) (frames : ℕ → List Frame) → with_frames g fs frames g ≡ fs
same_frames g fs frames = rw ((==_iff g g).1 refl) refl

other_frames :
    (g h : ℕ) (fs : List Frame) (frames : ℕ → List Frame)
    → g ≢ h
    → with_frames g fs frames h ≡ frames h
other_frames g h fs frames n = elim (Bool-cases (g == h)) [
  | inl e ↦ absurd (n ((==_iff g h).0 e))
  | inr e ↦ rw e refl
]

decide : (g h : ℕ) → (g ≡ h) ⊎ (g ≢ h)
decide g h = elim (Bool-cases (g == h)) [
  | inl e ↦ inl ((==_iff g h).0 e)
  | inr e ↦ inr (λ q. cc (e, (==_iff g h).1 q))
]

module _ (s : Locks) (alone : IsExclusive s) where
  waiting : s.holder ≡ none → (h : ℕ) → Suspended (s.frames h)
  waiting free h = rw free at (alone h)

  others : (g h : ℕ) → s.holder ≡ some g → g ≢ h → Suspended (s.frames h)
  others g h held n = elim (subst (λ (o : Option ℕ). Exclusive o h (s.frames h)) held (alone h)) [
    | inl (e, _) ↦ absurd (n e)
    | inr (_, w) ↦ w
  ]

  below :
      (g : ℕ) (rest : List Frame) → s.holder ≡ some g → s.frames g ≡ inside ∷ rest → Suspended rest
  below g rest held e = elim (subst (λ (o : Option ℕ). Exclusive o g (s.frames g)) held (alone g)) [
    | inl (_, (r, q, w)) ↦
        let tails : r ≡ rest = cc (q, e) in subst (λ (fs : List Frame). Suspended fs) tails w
    | inr (n, _) ↦ absurd (n refl)
  ]

module _ (g : ℕ) (frames : ℕ → List Frame)
    (rest_wait : (h : ℕ) → g ≢ h → Suspended (frames h)) where
  with_frames-Suspended :
      (fs : List Frame) → Suspended fs → (h : ℕ) → Suspended (with_frames g fs frames h)
  with_frames-Suspended fs w h = elim (decide g h) [
    | inl e ↦
        subst (λ (k : ℕ). Suspended (with_frames g fs frames k)) e
          (subst (λ (l : List Frame). Suspended l) (sym (same_frames g fs frames)) w)
    | inr n ↦
        subst (λ (l : List Frame). Suspended l) (sym (other_frames g h fs frames n)) (rest_wait h n)
  ]

  with_frames-Exclusive :
      (fs : List Frame)
      → Suspended fs
      → (h : ℕ) → Exclusive (some g) h (with_frames g (inside ∷ fs) frames h)
  with_frames-Exclusive fs w h = elim (decide g h) [
    | inl e ↦ inl (
      e,
      (
        fs,
        ap (λ (k : ℕ). with_frames g (inside ∷ fs) frames k) (sym e)
            ∙ same_frames g (inside ∷ fs) frames,
        w,
      ),
    )
    | inr n ↦ inr (
      n,
      subst (λ (l : List Frame). Suspended l) (sym (other_frames g h (inside ∷ fs) frames n))
          (rest_wait h n),
    )
  ]

LockStep-IsExclusive : {g : ℕ} {s t : Locks} → LockStep g s t → IsExclusive s → IsExclusive t
unfolding entered left called_back resumed
LockStep-IsExclusive {g} (enters s free) alone =
    with_frames-Exclusive g s.frames (λ h n. waiting s alone free h) (s.frames g)
      (waiting s alone free g)
LockStep-IsExclusive {g} (leaves rest s held e) alone =
    with_frames-Suspended g s.frames (λ h n. others s alone g h held n) rest
      (below s alone g rest held e)
LockStep-IsExclusive {g} (calls_back rest s held e) alone =
    with_frames-Suspended g s.frames (λ h n. others s alone g h held n) (in_handler ∷ rest)
      (below s alone g rest held e)
LockStep-IsExclusive {g} (resumes rest s free e) alone =
    with_frames-Exclusive g s.frames (λ h n. waiting s alone free h) rest
      (subst (λ (l : List Frame). Suspended l) e (waiting s alone free g))

-- However goroutines and handlers are interleaved, at most one call runs in the module: while the lock
-- is held, that is the holder's innermost call, and every other call of it or of another goroutine waits
-- for a handler; while the lock is free no call runs in the module. In which order the calls of several
-- goroutines return is left open: a call may go on while a later one of another goroutine waits.
pub Schedule-IsExclusive : {s t : Locks} → IsExclusive s → Schedule s t → IsExclusive t
Schedule-IsExclusive alone start = alone
Schedule-IsExclusive alone (step r g st) = LockStep-IsExclusive st (Schedule-IsExclusive alone r)

holder_leaves :
    (s : Locks)
    → IsExclusive s
    → (h : ℕ) → s.holder ≡ some h
    → (u : Locks) × LockStep h s u × (u.holder ≡ none)
unfolding left
holder_leaves s alone h held =
    elim (subst (λ (o : Option ℕ). Exclusive o h (s.frames h)) held (alone h)) [
      | inl (_, (rest, e, _)) ↦ (left h rest s, leaves rest s held e, refl)
      | inr (n, _) ↦ absurd (n refl)
    ]

Suspended-head : (f : Frame) (rest : List Frame) → Suspended (f ∷ rest) → f ≡ in_handler
Suspended-head inside rest w = absurd w
Suspended-head in_handler rest w = refl

-- No call is stuck: after any schedule, for each goroutine with a call in the module, either the lock is
-- free, that call waits for its handler, and once the handler returns the goroutine can take the lock and
-- go on in the call; or a goroutine holds the lock and can leave the module, by which the lock is free.
-- So a handler that enters the module again does not wait for the call that it serves.
pub Schedule-progress :
    {s t : Locks}
    → IsExclusive s
    → Schedule s t
    → (g : ℕ) (f : Frame) (rest : List Frame) → t.frames g ≡ f ∷ rest
    → ((f ≡ in_handler) × ((u : Locks) × LockStep g t u × (u.frames g ≡ inside ∷ rest)))
      ⊎ ((h : ℕ) × (t.holder ≡ some h) × ((u : Locks) × LockStep h t u × (u.holder ≡ none)))
unfolding resumed
Schedule-progress {t = t} alone r g f rest e = elim (Option-cases t.holder) [
  | inl free ↦
      let w = waiting t (Schedule-IsExclusive alone r) free g in
      let waits = Suspended-head f rest (subst (λ (l : List Frame). Suspended l) e w) in
      inl (
        waits,
        (
          resumed g rest t,
          resumes rest t free (e ∙ ap (λ (k : Frame). k ∷ rest) waits),
          same_frames g (inside ∷ rest) t.frames,
        ),
      )
  | inr (h, held) ↦ inr (h, held, holder_leaves t (Schedule-IsExclusive alone r) h held)
]
