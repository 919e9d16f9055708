-- ===== src/Fs/Stdlib/Extracted.antt =====
-- Where the extraction of the standard library writes.
use go_python.Prelude.{
  sym, subst, ℕ, ◌≡◌, refl, Bytes, true, Option, none, some, List, [], ◌∷◌, inl, inr, Bool-cases,
}
use go_python.Value.{Result, ok, err, Error}
use go_python.Fs.Path.{is_rooted, clean, join, parent}
use go_python.Fs.Inside.{Inside, accepted, accepted-Inside}
use go_python.Fs.Stdlib.{
  Member, Contents, Os, dir_mode, file_mode, write_out, write_created, extract_opened,
  extract_stdlib_file, and_go, extract_accepted, extract_member, extract_members,
}

module _ (os : Os) where
  -- A property of the host that every operation keeps whose path lies in `base`: a file is at the path
  -- it was made at, and MkdirAll is also asked for the directory that such a path is in.
  pub record IsConfined (base : Bytes) (path_of : os.File → Bytes) (P : os.State → Type 0)
      : Type 0 where
    pub mkdir_all_in :
        (path : Bytes) (mode : ℕ) (s : os.State)
        → Inside base path
        → P s
        → P (os.mkdir_all path mode s).1
    pub mkdir_all_over :
        (path : Bytes) (mode : ℕ) (s : os.State)
        → Inside base path
        → P s
        → P (os.mkdir_all (parent path) mode s).1
    pub create_in :
        (path : Bytes) (mode : ℕ) (s : os.State)
        → Inside base path
        → P s
        → P (os.create path mode s).1
    pub create_at :
        (path : Bytes) (mode : ℕ) (s : os.State) (f : os.File)
        → (os.create path mode s).0 ≡ ok f
        → path_of f ≡ path
    pub copy_in :
        (f : os.File) (c : Contents) (s : os.State)
        → Inside base (path_of f)
        → P s
        → P (os.copy f c s).1
    pub close_in : (f : os.File) (s : os.State) → Inside base (path_of f) → P s → P (os.close f s).1

  module _ (quote : Bytes → Bytes) (base : Bytes) (path_of : os.File → Bytes)
      (P : os.State → Type 0) (c : IsConfined base path_of P) where
    and_go-keeps :
        (m : Option Error × os.State) (next : os.State → Option Error × os.State)
        → P m.1
        → ((s : os.State) → P s → P (next s).1)
        → P (and_go os quote m next).1
    and_go-keeps (some e, s) next p f = p
    and_go-keeps (none, s) next p f = f s p

    write_created-keeps :
        (rc : Contents) (m : Result os.File × os.State)
        → P m.1
        → ((f : os.File) → m.0 ≡ ok f → Inside base (path_of f))
        → P (write_created os quote rc m).1
    unfolding write_created write_out
    write_created-keeps rc (err e, s) p at = p
    write_created-keeps rc (ok out, s) p at =
        c.close_in out (os.copy out rc s).1 (at out refl) (c.copy_in out rc s (at out refl) p)

    extract_opened-keeps :
        (r : Result Contents) (target : Bytes) (s : os.State)
        → Inside base target
        → P s
        → P (extract_opened os quote r target s).1
    unfolding extract_opened
    extract_opened-keeps (err e) target s i p = p
    extract_opened-keeps (ok rc) target s i p =
        write_created-keeps rc (os.create target file_mode s) (c.create_in target file_mode s i p)
          (λ file e.
            subst (λ (q : Bytes). Inside base q) (sym (c.create_at target file_mode s file e)) i)

    extract_accepted-keeps :
        (f : Member) (target : Bytes) (s : os.State)
        → Inside base target
        → P s
        → P (extract_accepted os quote f target s).1
    unfolding extract_accepted extract_stdlib_file
    extract_accepted-keeps f target s i p = elim (Bool-cases f.is_dir) [
      | inl e ↦ rw e (c.mkdir_all_in target dir_mode s i p)
      | inr e ↦ simp e (
          and_go-keeps (os.mkdir_all (parent target) dir_mode s) _
            (c.mkdir_all_over target dir_mode s i p)
            (λ s' p'. extract_opened-keeps f.opened target s' i p'))
    ]

  module _ (quote : Bytes → Bytes) (dir : Bytes) (rooted : is_rooted dir ≡ true)
      (path_of : os.File → Bytes) (P : os.State → Type 0)
      (c : IsConfined (clean dir) path_of P) where
    extract_member-keeps : (f : Member) (s : os.State) → P s → P (extract_member os quote dir f s).1
    unfolding extract_member
    extract_member-keeps f s p = elim (Bool-cases (accepted dir (join dir f.name))) [
      | inl e ↦ rw e (
          extract_accepted-keeps quote (clean dir) path_of P c f (join dir f.name) s
            (accepted-Inside dir f.name rooted e) p)
      | inr e ↦ rw e p
    ]

    -- The extraction of an archive, whatever its members are named, stays in the directory: a property
    -- of the host is kept by it if every operation keeps it whose path, without `.` and `..`, is the
    -- directory or lies below it, or, for MkdirAll, is the directory that such a path is in. The
    -- directory is given by an absolute path.
    pub extract_members-IsConfined :
        (members : List Member) (s : os.State) → P s → P (extract_members os quote dir members s).1
    unfolding extract_members
    extract_members-IsConfined [] s p = p
    extract_members-IsConfined (f ∷ fs) s p =
        and_go-keeps quote (clean dir) path_of P c (extract_member os quote dir f s) _
          (extract_member-keeps f s p) (λ s' p'. extract_members-IsConfined fs s' p')
