-- ===== src/Fs/Stdlib.antt =====
-- The embedded standard library of stdlib.go: the in-memory file system that holds it, and its
-- extraction to the host. The archive is given as zip.NewReader reads it. The in-memory file system
-- is the runtime's and the host's files are the package os's, so both are interfaces. `quote` is the
-- verb %q of package fmt.
pub mod Extracted
pub mod Loaded
use go_python.Prelude.{
  ℕ, Bytes, text, Bool, true, false, Option, none, some, List, [], ◌∷◌, ◌++◌, if◌then◌else◌,
}
use go_python.Value.{Result, ok, err, Error, errorf, wrapped, map_error}
use go_python.Fs.Path.{join, parent}
use go_python.Fs.Inside.{accepted}

-- What a member of the archive inflates to: bytes, and the error that ends them if there is one.
pub record Contents : Type 0 where
  pub bytes : Bytes
  pub fault : Option Error

-- zip.File: its name, whether it is a directory, and what Open returns.
pub record Member : Type 0 where
  pub name : Bytes
  pub is_dir : Bool
  pub opened : Result Contents

-- stdlibEntry
pub record StdlibEntry : Type 0 where
  pub name : Bytes
  pub dir : Bool
  pub bytes : Bytes

-- buf.ReadFrom
abbrev pub read_all : Contents → Result Bytes
read_all c = elim c.fault [ none ↦ ok c.bytes | some e ↦ err e ]

abbrev pub inflated : Result Contents → Result Bytes
inflated (ok c) = read_all c
inflated (err e) = err e

abbrev pub dir_entry : Bytes → StdlibEntry
dir_entry name = record { name = name; dir = true; bytes = [] }

abbrev pub file_entry : Bytes → Bytes → StdlibEntry
file_entry name bytes = record { name = name; dir = false; bytes = bytes }

-- An error of a later member, or the entries with this one before them.
abbrev pub with_entry : StdlibEntry → Result (List StdlibEntry) → Result (List StdlibEntry)
with_entry e (ok es) = ok (e ∷ es)
with_entry e (err x) = err x

abbrev pub entry_of : Bytes → Result Bytes → Result (List StdlibEntry) → Result (List StdlibEntry)
entry_of name (ok bytes) later = with_entry (file_entry name bytes) later
entry_of name (err e) later = err e

-- The loop of loadStdlibEntries: the first member that fails ends it.
unfoldable pub inflate : List Member → Result (List StdlibEntry)
inflate [] = ok []
inflate (f ∷ fs) =
    let later = inflate fs in
    if f.is_dir
    then with_entry (dir_entry f.name) later
    else entry_of f.name (inflated f.opened) later

-- The function that stdlibEntriesOnce runs.
unfoldable pub read_entries : Result (List Member) → Result (List StdlibEntry)
read_entries (err e) = err (wrapped (text "open embedded stdlib: ") e)
read_entries (ok members) = inflate members

-- A variable behind a sync.Once: what the first call found, kept for the next ones. Both results of
-- stdlibEntries and of stdlibPath are cached, errors too.
unfoldable pub once : {A : Type 0} → A → Option A → A × Option A
once fresh none = (fresh, some fresh)
once fresh (some kept) = (kept, some kept)

unfoldable pub load_stdlib_entries :
    Result (List Member)
    → Option (Result (List StdlibEntry))
    → Result (List StdlibEntry) × Option (Result (List StdlibEntry))
unfolding once
load_stdlib_entries zip cache = once (read_entries zip) cache

-- MemFS, with the operations that fill it.
pub record MemFs : Type 1 where
  pub State : Type 0
  pub new_mem_fs : State
  pub mkdir_all : Bytes → ℕ → State → Result State
  pub write_file : Bytes → Bytes → ℕ → State → Result State

abbrev pub dir_mode : ℕ
dir_mode = 493

abbrev pub file_mode : ℕ
file_mode = 420

module _ (mem : MemFs) where
  abbrev pub and_next : Result mem.State → (mem.State → Result mem.State) → Result mem.State
  and_next (ok fsys) f = f fsys
  and_next (err e) f = err e

  unfoldable pub add_entry : StdlibEntry → mem.State → Result mem.State
  add_entry e fsys =
      if e.dir
      then mem.mkdir_all e.name dir_mode fsys
      else mem.write_file e.name e.bytes file_mode fsys

  unfoldable pub populate : List StdlibEntry → mem.State → Result mem.State
  populate [] fsys = ok fsys
  populate (e ∷ es) fsys = and_next (add_entry e fsys) (λ fsys'. populate es fsys')

  unfoldable pub populate_new : Result (List StdlibEntry) → Result mem.State
  populate_new (err e) = err e
  populate_new (ok es) = populate es mem.new_mem_fs

  -- NewStdlibMemFS: it leaves the cache as loadStdlibEntries does.
  unfoldable pub new_stdlib_mem_fs :
      Result (List Member)
      → Option (Result (List StdlibEntry))
      → Result mem.State × Option (Result (List StdlibEntry))
  new_stdlib_mem_fs zip cache =
      let (entries, cache') = load_stdlib_entries zip cache in (populate_new entries, cache')

-- The functions of package os and io.Copy on the host's files. `create` is os.OpenFile with O_CREATE,
-- O_TRUNC and O_WRONLY; io.Copy is `copy`, and gives its error.
pub record Os : Type 1 where
  pub State : Type 0
  pub File : Type 0
  pub mkdir_temp : Bytes → Bytes → State → Result Bytes × State
  pub mkdir_all : Bytes → ℕ → State → Option Error × State
  pub create : Bytes → ℕ → State → Result File × State
  pub copy : File → Contents → State → Option Error × State
  pub close : File → State → Option Error × State

module _ (os : Os) (quote : Bytes → Bytes) where
  -- The copy into the file that was made, which is closed also when it fails.
  unfoldable pub write_out : os.File → Contents → os.State → Option Error × os.State
  write_out out rc s =
      let (r, s') = os.copy out rc s in
      let (closed, s'') = os.close out s' in (elim r [ some e ↦ some e | none ↦ closed ], s'')

  unfoldable pub write_created : Contents → Result os.File × os.State → Option Error × os.State
  write_created rc (err e, s) = (some e, s)
  write_created rc (ok out, s) = write_out out rc s

  unfoldable pub extract_opened : Result Contents → Bytes → os.State → Option Error × os.State
  extract_opened (err e) target s = (some e, s)
  extract_opened (ok rc) target s = write_created rc (os.create target file_mode s)

  -- extractStdlibFile: closing the member changes nothing on the host.
  unfoldable pub extract_stdlib_file : Member → Bytes → os.State → Option Error × os.State
  extract_stdlib_file f target s = extract_opened f.opened target s

  -- A step that has to succeed before the next.
  abbrev pub and_go :
      Option Error × os.State → (os.State → Option Error × os.State) → Option Error × os.State
  and_go (some e, s) next = (some e, s)
  and_go (none, s) next = next s

  -- One member that the guard accepts.
  unfoldable pub extract_accepted : Member → Bytes → os.State → Option Error × os.State
  extract_accepted f target s =
      if f.is_dir
      then os.mkdir_all target dir_mode s
      else and_go (os.mkdir_all (parent target) dir_mode s) (λ s'. extract_stdlib_file f target s')

  abbrev pub illegal_path : Bytes → Error
  illegal_path name = errorf (text "illegal path in stdlib zip: " ++ quote name)

  unfoldable pub extract_member : Bytes → Member → os.State → Option Error × os.State
  extract_member dir f s =
      if accepted dir (join dir f.name)
      then extract_accepted f (join dir f.name) s
      else (some (illegal_path f.name), s)

  unfoldable pub extract_members : Bytes → List Member → os.State → Option Error × os.State
  extract_members dir [] s = (none, s)
  extract_members dir (f ∷ fs) s = and_go (extract_member dir f s) (λ s'. extract_members dir fs s')

  abbrev pub path_unless : Bytes → Option Error × os.State → Result Bytes × os.State
  path_unless dir (some e, s) = (err e, s)
  path_unless dir (none, s) = (ok dir, s)

  unfoldable pub extract_into :
      Result (List Member) → Result Bytes × os.State → Result Bytes × os.State
  extract_into zip (err e, s) = (err e, s)
  extract_into (err e) (ok dir, s) = (err (wrapped (text "open embedded stdlib: ") e), s)
  extract_into (ok members) (ok dir, s) = path_unless dir (extract_members dir members s)

  -- extractStdlibTo
  unfoldable pub extract_stdlib_to :
      Result (List Member) → Bytes → os.State → Result Bytes × os.State
  extract_stdlib_to zip parent_dir s =
      extract_into zip (os.mkdir_temp parent_dir (text "go-python-stdlib-") s)

  -- ExtractStdlib: the function of stdlibOnce runs on the first call only.
  unfoldable pub extract_stdlib :
      Result (List Member)
      → Option (Result Bytes)
      → os.State
      → Result Bytes × Option (Result Bytes) × os.State
  extract_stdlib zip (some kept) s = (kept, some kept, s)
  extract_stdlib zip none s = let (r, s') = extract_stdlib_to zip [] s in (r, some r, s')
