-- ===== src/Fs/Host.antt =====
-- The host's file system of fs.go, scoped to a root: each operation is the one of package os on the
-- joined path. Package os is an interface.
use go_python.Prelude.{ℕ, Bytes, ◌||◌, Option, [], ◌∷◌, if◌then◌else◌, same}
use go_python.Value.{Result, Error}
use go_python.Fs.Path.{slash, join}

-- hostFS.join
unfoldable pub host_join : Bytes → Bytes → Bytes
host_join root name =
    if same root [] || same root (slash ∷ []) then slash ∷ name else join root name

-- NewHostFS and DirFS: a hostFS is its root.
abbrev pub new_host_fs : Bytes
new_host_fs = []

abbrev pub dir_fs : Bytes → Bytes
dir_fs dir = dir

pub record OsCalls : Type 1 where
  pub State : Type 0
  pub File : Type 0
  pub FileInfo : Type 0
  pub open_file : Bytes → ℕ → ℕ → State → Result File × State
  pub mkdir : Bytes → ℕ → State → Option Error × State
  pub chmod : Bytes → ℕ → State → Option Error × State
  pub remove : Bytes → State → Option Error × State
  pub rename : Bytes → Bytes → State → Option Error × State
  pub stat : Bytes → State → Result FileInfo
  pub lstat : Bytes → State → Result FileInfo
  pub symlink : Bytes → Bytes → State → Option Error × State
  pub readlink : Bytes → State → Result Bytes
  pub link : Bytes → Bytes → State → Option Error × State

module _ (os : OsCalls) (root : Bytes) where
  unfoldable pub host_open_file : Bytes → ℕ → ℕ → os.State → Result os.File × os.State
  host_open_file name flag perm s = os.open_file (host_join root name) flag perm s

  unfoldable pub host_mkdir : Bytes → ℕ → os.State → Option Error × os.State
  host_mkdir name perm s = os.mkdir (host_join root name) perm s

  unfoldable pub host_chmod : Bytes → ℕ → os.State → Option Error × os.State
  host_chmod name mode s = os.chmod (host_join root name) mode s

  unfoldable pub host_remove : Bytes → os.State → Option Error × os.State
  host_remove name s = os.remove (host_join root name) s

  unfoldable pub host_rename : Bytes → Bytes → os.State → Option Error × os.State
  host_rename a b s = os.rename (host_join root a) (host_join root b) s

  unfoldable pub host_stat : Bytes → os.State → Result os.FileInfo
  host_stat name s = os.stat (host_join root name) s

  unfoldable pub host_lstat : Bytes → os.State → Result os.FileInfo
  host_lstat name s = os.lstat (host_join root name) s

  -- The target of a link is kept as it is given.
  unfoldable pub host_symlink : Bytes → Bytes → os.State → Option Error × os.State
  host_symlink target name s = os.symlink target (host_join root name) s

  unfoldable pub host_readlink : Bytes → os.State → Result Bytes
  host_readlink name s = os.readlink (host_join root name) s

  unfoldable pub host_link : Bytes → Bytes → os.State → Option Error × os.State
  host_link a b s = os.link (host_join root a) (host_join root b) s
