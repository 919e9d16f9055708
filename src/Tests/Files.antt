-- ===== src/Tests/Files.antt =====
-- The theorems on the file systems at concrete inputs.
use go_python.Prelude.{
  ==_iff, same, ℕ, ◌≡◌, ◌≢◌, refl, sym, ap, ◌⊎◌, inl, inr, Bytes, Bool, text, true, false, Option,
  none, some, List, [], ◌∷◌, ◌++◌, if◌then◌else◌, same-eq, Bool-cases,
}
use mathlib.Core.List.{Memᴰ}
use go_python.Value.{ok, err, errorf}
use go_python.Fs.Path.{slash, join_slash, clean, join, parent}
use go_python.Fs.Inside.{Inside, accepted}
use go_python.Fs.Host.{host_join}
use go_python.Fs.Below.{host_join-below}
use go_python.Fs.Stdlib
use go_python.Fs.Stdlib.{Member, Contents, MemFs, Os, new_stdlib_mem_fs, extract_members}
use go_python.Fs.Stdlib.Extracted.{IsConfined, extract_members-IsConfined}
use go_python.Fs.Stdlib.Loaded
use go_python.Fs.Stdlib.Loaded.{new_stdlib_mem_fs-reads}

host_join-below_example :
    (host_join (text "/srv/./py") (join_slash (text "lib" ∷ text "a.py" ∷ []))
      ≡ clean (text "/srv/./py") ++ slash ∷ join_slash (text "lib" ∷ text "a.py" ∷ []))
    × (join (text "/srv/./py") (join_slash (text "lib" ∷ text "a.py" ∷ []))
        ≡ clean (text "/srv/./py") ++ slash ∷ join_slash (text "lib" ∷ text "a.py" ∷ []))
    × (accepted
          (text "/srv/./py")
          (join (text "/srv/./py") (join_slash (text "lib" ∷ text "a.py" ∷ [])))
        ≡ true)
unfolding text clean go_python.Fs.Path.normal go_python.Fs.Path.keep go_python.Fs.Path.up
    go_python.Fs.Path.rendered go_python.Fs.Path.split go_python.Fs.Path.is_rooted
    go_python.Fs.Path.is_plain go_python.Fs.Clean.no_slash join_slash same
host_join-below_example =
    host_join-below (text "/srv/./py") (text "lib") (text "a.py" ∷ []) refl (λ h. cc)
      ((refl, refl), ((refl, refl), tt))

-- A host that keeps the paths that it is asked for.
abbrev log_os : Os
log_os = record {
  State = List Bytes;
  File = Bytes;
  mkdir_temp = λ dir pattern s. (ok (text "/tmp/x"), s);
  mkdir_all = λ path mode s. (none, path ∷ s);
  create = λ path mode s. (ok path, path ∷ s);
  copy = λ f c s. (c.fault, s);
  close = λ f s. (none, s);
}

abbrev IsNear : Bytes → Bytes → Type 0
IsNear base q = Inside base q ⊎ ((p : Bytes) × Inside base p × (q ≡ parent p))

abbrev AllNear : Bytes → List Bytes → Type 0
AllNear base [] = Unit {0}
AllNear base (q ∷ s) = IsNear base q × AllNear base s

log_os-IsConfined : (base : Bytes) → IsConfined log_os base (λ f. f) (AllNear base)
log_os-IsConfined base = record {
  mkdir_all_in = λ path mode s i p. (inl i, p);
  mkdir_all_over = λ path mode s i p. (inr (path, i, refl), p);
  create_in = λ path mode s i p. (inl i, p);
  create_at = λ path mode s f e. cc;
  copy_in = λ f c s i p. p;
  close_in = λ f s i p. p;
}

abbrev a_file : Member
a_file = record {
  name = text "lib/a.py";
  is_dir = false;
  opened = ok (record { bytes = text "pass"; fault = none });
}

abbrev a_dir : Member
a_dir = record { name = text "lib"; is_dir = true; opened = err (errorf []) }

abbrev a_slip : Member
a_slip = record {
  name = text "../a.py";
  is_dir = false;
  opened = ok (record { bytes = text "pass"; fault = none });
}

extract_members-IsConfined_example :
    AllNear
      (clean (text "/tmp/x"))
      (extract_members log_os (λ s. s) (text "/tmp/x") (a_dir ∷ a_file ∷ a_slip ∷ []) []).1
unfolding text go_python.Fs.Path.is_rooted
extract_members-IsConfined_example =
    extract_members-IsConfined log_os (λ s. s) (text "/tmp/x") refl (λ f. f)
      (AllNear (clean (text "/tmp/x"))) (log_os-IsConfined (clean (text "/tmp/x")))
      (a_dir ∷ a_file ∷ a_slip ∷ []) [] tt

-- The guard stops the member that would escape.
slip-refused : (extract_members log_os (λ s. s) (text "/tmp/x") (a_file ∷ a_slip ∷ []) []) ≡ (
  some (errorf (text "illegal path in stdlib zip: ../a.py")),
  text "/tmp/x/lib/a.py" ∷ text "/tmp/x/lib" ∷ [],
)
unfolding extract_members Stdlib.extract_member Stdlib.extract_accepted Stdlib.extract_stdlib_file
    Stdlib.extract_opened Stdlib.write_created Stdlib.write_out accepted
    go_python.Prelude.has_prefix text clean join parent go_python.Fs.Path.up_to_slash
    go_python.Fs.Path.normal go_python.Fs.Path.keep go_python.Fs.Path.up go_python.Fs.Path.rendered
    go_python.Fs.Path.split go_python.Fs.Path.is_rooted join_slash same
slip-refused = refl

-- A file system that keeps what is written, the latest first.
abbrev list_fs : MemFs
list_fs = record {
  State = List (Bytes × Bytes);
  new_mem_fs = [];
  mkdir_all = λ path mode s. ok s;
  write_file = λ path d mode s. ok ((path, d) ∷ s);
}

abbrev read : Bytes → List (Bytes × Bytes) → Option Bytes
read q [] = none
read q ((p, d) ∷ s) = if same (clean p) (clean q) then some d else read q s

same_refl : (s : Bytes) → same s s ≡ true
unfolding same
same_refl [] = refl
same_refl (c ∷ s) = rw ((==_iff c c).1 refl) (same_refl s)

read-written : (p d : Bytes) (s : List (Bytes × Bytes)) → read p ((p, d) ∷ s) ≡ some d
read-written p d s = rw (same_refl (clean p)) refl

read-other :
    (p q d : Bytes) (s : List (Bytes × Bytes)) → clean p ≢ clean q → read q ((p, d) ∷ s) ≡ read q s
read-other p q d s n = elim (Bool-cases (same (clean p) (clean q))) [
  | inl e ↦ absurd (n (same-eq (clean p) (clean q) e))
  | inr e ↦ rw e refl
]

list_fs-IsLawful : Loaded.IsLawful list_fs read
list_fs-IsLawful = record {
  mkdir_all_reads = λ p q mode s s' e. cc;
  write_file_reads = λ p d mode s s' e. cc (e, read-written p d s);
  write_file_others = λ p q d mode s s' n e. cc (e, read-other p q d s n);
}

new_stdlib_mem_fs-reads_example :
    (c : Contents) × (a_file.opened ≡ ok c)
    × (c.fault ≡ none)
    × (read a_file.name ((text "lib/a.py", text "pass") ∷ []) ≡ some c.bytes)
unfolding text new_stdlib_mem_fs Stdlib.populate_new Stdlib.load_stdlib_entries Stdlib.once
    Stdlib.read_entries Stdlib.inflate Stdlib.populate Stdlib.add_entry clean
    go_python.Fs.Path.normal go_python.Fs.Path.keep go_python.Fs.Path.up go_python.Fs.Path.rendered
    go_python.Fs.Path.split go_python.Fs.Path.is_rooted join_slash same
new_stdlib_mem_fs-reads_example =
    new_stdlib_mem_fs-reads list_fs read list_fs-IsLawful (a_dir ∷ a_file ∷ [])
      ((text "lib/a.py", text "pass") ∷ []) (((λ h. cc), tt), (tt, tt)) refl a_file
      (Memᴰ.tail (Memᴰ.head refl)) refl
