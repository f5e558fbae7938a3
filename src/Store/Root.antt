-- ===== src/Store/Root.antt =====
-- The methods of os.Root and os.File that the store calls.
pub mod Reads
pub mod Untouched
pub mod Writes
pub mod Values
use backuply.Base.{
  ℕ, ◌+◌, ◌≡◌, Bool, true, false, ◌&&◌, not, Option, none, some, List, [], ◌∷◌, ◌++◌, leb, ltb,
  length, take, drop, text_eq, if◌then◌else◌,
}
use backuply.Base.Dict
use backuply.Text.{Text}
use backuply.Store.Error.{Error, not_exist, already_exists, unsupported_object, io_error}
use backuply.Store.Disk.{
  Volume, FilePath, FileKind, regular, dir, symlink, special, Node, Disk, Handle, location_eq,
  node_at, put_node, remove_node, new_node, behind,
}
use backuply.Store.Exec.{Exec, pure, fail, ◌>>=◌, ◌>>◌, require, step, gets, change_disk}

-- errno values that the code does not tell apart
abbrev not_directory : Error
not_directory = io_error 20

abbrev end_of_file : Error
end_of_file = io_error 0

unfoldable pub found : {A : Type 0} → Option A → Exec A
found none = fail not_exist
found (some a) = pure a

-- A new node, where there is none yet
make_new : FileKind → ℕ → Volume → FilePath → Option Node → Exec (Unit {0})
make_new kind mode v p none = change_disk (new_node kind mode v p)
make_new kind mode v p (some _) = fail already_exists

-- os.OpenRoot
unfoldable pub open_root : Text → Exec Volume
unfolding found
open_root root = do step; v ← gets (λ w. Dict.lookup root w.disk.mounts); found v

unfoldable pub lstat : Volume → FilePath → Exec Node
unfolding found
lstat v p = do step; n ← gets (λ w. node_at w.disk v p); found n

unfoldable pub open_file : Volume → FilePath → Exec Handle
unfolding found
open_file v p = do
  step
  n ← gets (λ w. node_at w.disk v p)
  node ← found n
  pure (record { volume = v; path = p; opened = node })

-- `f.Stat`
unfoldable pub stat : Handle → Exec Node
stat h = do step; gets (λ w. behind w.disk h)

-- The next `n` bytes at an offset: io.ReadFull, and `f.ReadAt`
unfoldable pub read_at : Handle → ℕ → ℕ → Exec Text
read_at h n offset = do
  step
  node ← gets (λ w. behind w.disk h)
  let rest = drop offset node.bytes
  require (leb n (length rest)) end_of_file
  pure (take n rest)

-- `Mkdir`, below a parent that exists
unfoldable pub mkdir : Volume → FilePath → ℕ → Exec (Unit {0})
unfolding make_new
mkdir v p mode = do step; n ← gets (λ w. node_at w.disk v p); make_new dir mode v p n

is_dir : FileKind → Bool
is_dir dir = true
is_dir _ = false

-- One element of `MkdirAll`
make_dir : ℕ → Volume → FilePath → Option Node → Exec (Unit {0})
make_dir mode v p none = change_disk (new_node dir mode v p)
make_dir mode v p (some n) = require (is_dir n.kind) not_directory

-- `MkdirAll`, element by element: `done` exists
unfoldable pub mkdir_all : Volume → ℕ → FilePath → FilePath → Exec (Unit {0})
unfolding is_dir make_dir
mkdir_all v mode done [] = pure tt
mkdir_all v mode done (part ∷ parts) = do
  step
  n ← gets (λ w. node_at w.disk v (done ++ part ∷ []))
  make_dir mode v (done ++ part ∷ []) n
  mkdir_all v mode (done ++ part ∷ []) parts

-- `OpenFile` with O_CREATE|O_EXCL|O_WRONLY
unfoldable pub create : Volume → FilePath → ℕ → Exec (Unit {0})
unfolding make_new
create v p mode = do step; n ← gets (λ w. node_at w.disk v p); make_new regular mode v p n

-- A change of the file at a path that the caller holds open; nothing if it is gone.
unfoldable pub update_node : Volume → FilePath → (Node → Node) → Disk → Disk
update_node v p f d = elim (node_at d v p) [ none ↦ d | some n ↦ put_node v p (f n) d ]

-- `out.Write` of the file created at a path
unfoldable pub append_file : Volume → FilePath → Text → Exec (Unit {0})
append_file v p data' = do
  step
  change_disk (update_node v p (λ n. record n { bytes = n.bytes ++ data'; mtime = n.mtime + 1 }))

unfoldable pub chmod : Volume → FilePath → ℕ → Exec (Unit {0})
chmod v p mode = do step; change_disk (update_node v p (λ n. record n { mode = mode }))

unfoldable pub remove : Volume → FilePath → Exec (Unit {0})
remove v p = do step; change_disk (remove_node v p)

move_node : Volume → FilePath → FilePath → Option Node → Exec (Unit {0})
move_node v from to none = fail not_exist
move_node v from to (some n) = change_disk (λ d. put_node v to n (remove_node v from d))

-- `Rename`, which replaces a file at the new path in one step
unfoldable pub rename : Volume → FilePath → FilePath → Exec (Unit {0})
unfolding move_node
rename v from to = do step; n ← gets (λ w. node_at w.disk v from); move_node v from to n
