-- ===== src/Fs/Stdlib/Loaded.antt =====
-- What the in-memory file system with the standard library holds.
use go_python.Prelude.{
  subst, Option-cases, ℕ, ◌≡◌, ◌≢◌, refl, sym, ap, ◌∙◌, Bytes, true, false, Option, none, some,
  List, [], ◌∷◌, Bool-cases, inl, inr,
}
use mathlib.Core.List.{Memᴰ}
use go_python.Value.{Result, ok, err}
use go_python.Fs.Path.{clean}
use go_python.Fs.Stdlib.{
  Member, Contents, StdlibEntry, MemFs, inflated, with_entry, entry_of, dir_entry, file_entry,
  inflate, read_entries, once, load_stdlib_entries, dir_mode, file_mode, and_next, add_entry,
  populate, populate_new, new_stdlib_mem_fs,
}

-- No two members lead to one path.
abbrev pub Absent : Bytes → List Member → Type 0
Absent name [] = Unit {0}
Absent name (f ∷ fs) = (clean f.name ≢ clean name) × Absent name fs

abbrev pub Distinct : List Member → Type 0
Distinct [] = Unit {0}
Distinct (f ∷ fs) = Absent f.name fs × Distinct fs

-- The entries that an archive inflates to: each file of it has been read to its end.
data Loads : List Member → List StdlibEntry → Type 0 where
  done : Loads [] []
  dir :
      (f : Member) {fs : List Member} {es : List StdlibEntry}
      → f.is_dir ≡ true
      → Loads fs es
      → Loads (f ∷ fs) (dir_entry f.name ∷ es)
  file :
      (f : Member) {fs : List Member} {es : List StdlibEntry}
      → f.is_dir ≡ false
      → (c : Contents) → f.opened ≡ ok c
      → c.fault ≡ none
      → Loads fs es
      → Loads (f ∷ fs) (file_entry f.name c.bytes ∷ es)

with_entry-ok :
    (e : StdlibEntry) (later : Result (List StdlibEntry)) (es : List StdlibEntry)
    → with_entry e later ≡ ok es
    → (rest : List StdlibEntry) × (later ≡ ok rest) × (es ≡ e ∷ rest)
with_entry-ok e (ok rest) es h = (rest, refl, cc)
with_entry-ok e (err x) es h = cc

entry_of-ok :
    (name : Bytes) (r : Result Contents) (later : Result (List StdlibEntry)) (es : List StdlibEntry)
    → entry_of name (inflated r) later ≡ ok es
    → (c : Contents) × (r ≡ ok c)
      × (c.fault ≡ none)
      × (with_entry (file_entry name c.bytes) later ≡ ok es)
entry_of-ok name (err e) later es h = cc
entry_of-ok name (ok c) later es h = elim (Option-cases c.fault) [
  | inl n ↦ (c, refl, n, rw n at h)
  | inr (e, n) ↦ cc (rw n at h)
]

inflate-Loads : (fs : List Member) (es : List StdlibEntry) → inflate fs ≡ ok es → Loads fs es
unfolding inflate
inflate-Loads [] es h = subst (λ (l : List StdlibEntry). Loads [] l) (cc h) done
inflate-Loads (f ∷ fs) es h = elim (Bool-cases f.is_dir) [
  | inl d ↦
      let (rest, l, e) = with_entry-ok (dir_entry f.name) (inflate fs) es (simp d at h) in
      subst (λ (l : List StdlibEntry). Loads (f ∷ fs) l) (sym e) (dir f d (inflate-Loads fs rest l))
  | inr d ↦
      let (c, o, n, k) = entry_of-ok f.name f.opened (inflate fs) es (simp d at h) in
      let (rest, l, e) = with_entry-ok (file_entry f.name c.bytes) (inflate fs) es k in
      subst (λ (l : List StdlibEntry). Loads (f ∷ fs) l) (sym e)
        (file f d c o n (inflate-Loads fs rest l))
]

-- The first lookup reads the archive, and each later one gives what the first one gave.
pub load_stdlib_entries-load_stdlib_entries :
    (zip zip' : Result (List Member)) (cache : Option (Result (List StdlibEntry)))
    → load_stdlib_entries zip' (load_stdlib_entries zip cache).1 ≡ load_stdlib_entries zip cache
unfolding load_stdlib_entries once
load_stdlib_entries-load_stdlib_entries zip zip' none = refl
load_stdlib_entries-load_stdlib_entries zip zip' (some kept) = refl

module _ (mem : MemFs) (read : Bytes → mem.State → Option Bytes) where
  -- Directories leave files as they are, and a file that is written holds its bytes, on its path only.
  pub record IsLawful : Type 0 where
    pub mkdir_all_reads :
        (p q : Bytes) (mode : ℕ) (s s' : mem.State)
        → mem.mkdir_all p mode s ≡ ok s'
        → read q s' ≡ read q s
    pub write_file_reads :
        (p d : Bytes) (mode : ℕ) (s s' : mem.State)
        → mem.write_file p d mode s ≡ ok s'
        → read p s' ≡ some d
    pub write_file_others :
        (p q d : Bytes) (mode : ℕ) (s s' : mem.State)
        → clean p ≢ clean q
        → mem.write_file p d mode s ≡ ok s'
        → read q s' ≡ read q s

  and_next-ok :
      (r : Result mem.State) (f : mem.State → Result mem.State) (s' : mem.State)
      → and_next mem r f ≡ ok s'
      → (s : mem.State) × (r ≡ ok s) × (f s ≡ ok s')
  and_next-ok (ok s) f s' h = (s, refl, h)
  and_next-ok (err e) f s' h = cc

  populate-nil :
      {name : Bytes} (s s' : mem.State) → populate mem [] s ≡ ok s' → read name s' ≡ read name s
  unfolding populate
  populate-nil s s' h = cc

  populate-cons :
      (e : StdlibEntry) (es : List StdlibEntry) (s s' : mem.State)
      → populate mem (e ∷ es) s ≡ ok s'
      → (s1 : mem.State) × (add_entry mem e s ≡ ok s1) × (populate mem es s1 ≡ ok s')
  unfolding populate
  populate-cons e es s s' h = and_next-ok (add_entry mem e s) (λ t. populate mem es t) s' h

  populate-keeps :
      IsLawful
      → (name : Bytes) {fs : List Member} {es : List StdlibEntry} (l : Loads fs es)
        (s s' : mem.State)
      → Absent name fs
      → populate mem es s ≡ ok s'
      → read name s' ≡ read name s
  unfolding add_entry
  populate-keeps law name done s s' a h = populate-nil s s' h
  populate-keeps law name (dir f d l) s s' a h =
      let (s1, e, h1) = populate-cons (dir_entry f.name) _ s s' h in
      populate-keeps law name l s1 s' a.1 h1 ∙ law.mkdir_all_reads f.name name dir_mode s s1 e
  populate-keeps law name (file f d c o n l) s s' a h =
      let (s1, e, h1) = populate-cons _ _ s s' h in
      populate-keeps law name l s1 s' a.1 h1
      ∙ law.write_file_others f.name name c.bytes file_mode s s1 a.0 e

  populate-reads :
      IsLawful
      → {fs : List Member} {es : List StdlibEntry} (l : Loads fs es) (s s' : mem.State)
      → Distinct fs
      → populate mem es s ≡ ok s'
      → (f : Member) → Memᴰ f fs
      → f.is_dir ≡ false
      → (c : Contents) × (f.opened ≡ ok c) × (c.fault ≡ none) × (read f.name s' ≡ some c.bytes)
  unfolding add_entry
  populate-reads law done s s' a h f m nd = elim m [ ]
  populate-reads law (dir g d l) s s' a h f (Memᴰ.head e) nd = cc (ap (λ (m : Member). m.is_dir) e)
  populate-reads law (dir g d l) s s' a h f (Memᴰ.tail m) nd =
      let (s1, e, h1) = populate-cons _ _ s s' h in populate-reads law l s1 s' a.1 h1 f m nd
  populate-reads law (file g d c o n l) s s' a h f (Memᴰ.head e) nd =
      let (s1, e1, h1) = populate-cons _ _ s s' h in
      (
        c,
        ap (λ (m : Member). m.opened) e ∙ o,
        n,
        ap (λ (m : Member). read m.name s') e
            ∙ (populate-keeps law g.name l s1 s' a.0 h1
                ∙ law.write_file_reads g.name c.bytes file_mode s s1 e1),
      )
  populate-reads law (file g d c o n l) s s' a h f (Memᴰ.tail m) nd =
      let (s1, e, h1) = populate-cons _ _ s s' h in populate-reads law l s1 s' a.1 h1 f m nd

  populate_new-ok :
      (r : Result (List StdlibEntry)) (s' : mem.State)
      → populate_new mem r ≡ ok s'
      → (es : List StdlibEntry) × (r ≡ ok es) × (populate mem es mem.new_mem_fs ≡ ok s')
  unfolding populate_new
  populate_new-ok (ok es) s' h = (es, refl, h)
  populate_new-ok (err e) s' h = cc

  -- When NewStdlibMemFS succeeds on an archive that is read for the first time, every file of the
  -- archive could be read to its end, and is in the file system with all of its bytes. No two members of
  -- the archive lead to one path, and the file system keeps what is written to a file until another is
  -- written under its path.
  pub new_stdlib_mem_fs-reads :
      IsLawful
      → (members : List Member) (s' : mem.State) → Distinct members
      → (new_stdlib_mem_fs mem (ok members) none).0 ≡ ok s'
      → (f : Member) → Memᴰ f members
      → f.is_dir ≡ false
      → (c : Contents) × (f.opened ≡ ok c) × (c.fault ≡ none) × (read f.name s' ≡ some c.bytes)
  unfolding new_stdlib_mem_fs load_stdlib_entries once read_entries
  new_stdlib_mem_fs-reads law members s' d h f m nd =
      let (es, e, h') = populate_new-ok (inflate members) s' h in
      populate-reads law (inflate-Loads members es e) mem.new_mem_fs s' d h' f m nd
