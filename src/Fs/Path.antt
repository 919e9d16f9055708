-- ===== src/Fs/Path.antt =====
-- Clean, Join and Dir of path/filepath on Unix, as fs.go and stdlib.go use them: paths are strings of
-- bytes whose segments a slash separates.
use go_python.Prelude.{
  ℕ, Bytes, Bool, true, false, not, ◌||◌, List, [], ◌∷◌, ◌++◌, ◌==◌, if◌then◌else◌, same,
}
use mathlib.Core.List.{reverse}

abbrev pub slash : ℕ
slash = 47

abbrev pub dot : Bytes
dot = 46 ∷ []

abbrev pub dot_dot : Bytes
dot_dot = 46 ∷ 46 ∷ []

abbrev pub push : ℕ → List Bytes → List Bytes
push c [] = (c ∷ []) ∷ []
push c (s ∷ ss) = (c ∷ s) ∷ ss

-- The segments between the slashes: one more than there are slashes.
unfoldable pub split : Bytes → List Bytes
split [] = [] ∷ []
split (c ∷ s) = let rest = split s in if c == slash then [] ∷ rest else push c rest

unfoldable pub join_slash : List Bytes → Bytes
join_slash [] = []
join_slash (s ∷ []) = s
join_slash (s ∷ t ∷ ss) = s ++ slash ∷ join_slash (t ∷ ss)

unfoldable pub is_rooted : Bytes → Bool
is_rooted [] = false
is_rooted (c ∷ s) = c == slash

-- A segment `..` over the segments kept so far, the last first: it takes the last one away, stays where
-- there is none to take, and falls away at the root.
unfoldable pub up : Bool → List Bytes → List Bytes
up rooted [] = if rooted then [] else dot_dot ∷ []
up rooted (t ∷ kept) = if same t dot_dot then dot_dot ∷ t ∷ kept else kept

unfoldable pub is_plain : Bytes → Bool
is_plain s = not (same s [] || (same s dot || same s dot_dot))

unfoldable pub keep : Bool → List Bytes → Bytes → List Bytes
unfolding up
keep rooted kept s =
    if same s [] || same s dot then kept else if same s dot_dot then up rooted kept else s ∷ kept

unfoldable pub normal : Bool → List Bytes → List Bytes → List Bytes
normal rooted kept [] = kept
normal rooted kept (s ∷ ss) = normal rooted (keep rooted kept s) ss

unfoldable pub rendered : Bool → List Bytes → Bytes
rendered true ss = slash ∷ join_slash ss
rendered false [] = dot
rendered false (s ∷ ss) = join_slash (s ∷ ss)

-- filepath.Clean
unfoldable pub clean : Bytes → Bytes
clean path = rendered (is_rooted path) (reverse (normal (is_rooted path) [] (split path)))

-- filepath.Join of two elements; leading empty ones are left out.
unfoldable pub join : Bytes → Bytes → Bytes
join [] [] = []
join [] (c ∷ name) = clean (c ∷ name)
join (c ∷ dir) name = clean ((c ∷ dir) ++ slash ∷ name)

unfoldable pub up_to_slash : Bytes → Bytes
up_to_slash [] = []
up_to_slash (c ∷ s) = elim (up_to_slash s) [
  | [] ↦ if c == slash then c ∷ [] else []
  | d ∷ t ↦ c ∷ d ∷ t
]

-- filepath.Dir
unfoldable pub parent : Bytes → Bytes
unfolding up_to_slash
parent path = clean (up_to_slash path)
