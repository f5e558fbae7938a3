-- ===== src/Store/Folder.antt =====
-- Markers and path checks of internal/store/files.go: `checkMarker`, `CheckFolder`, `openFolder`,
-- `checkComponents`, `syncDir` and `ensureParents`.
pub mod Reads
pub mod Untouched
use backuply.Base.{
  ℕ, Bool, true, false, ◌&&◌, ◌||◌, not, List, [], ◌∷◌, ◌++◌, ltb, leb, length, take, text_eq, ◌==◌,
  if◌then◌else◌,
}
use backuply.Base.Result.{Result, ok, err}
use backuply.Text.{Text, codes}
use backuply.Text.Split.{split, join}
use backuply.Store.Limits.{marker_name}
use backuply.Store.Error.{
  Error, not_exist, bad_marker, marker_mismatch, unsupported_object, non_directory_parent,
}
use backuply.Store.Path.{slash, valid_path}
use backuply.Store.Disk.{
  Volume, FilePath, FileKind, regular, dir, symlink, special, Node, Handle, behind,
}
use backuply.Store.Exec.{Exec, pure, fail, lift, ◌>>=◌, ◌>>◌, require, step, gets, try}
use backuply.Store.Root.{open_root, lstat, open_file, mkdir_all}

unfoldable pub is_regular : FileKind → Bool
is_regular regular = true
is_regular _ = false

unfoldable pub is_directory : FileKind → Bool
is_directory dir = true
is_directory _ = false

-- `io.ReadAll(io.LimitReader(f, n))`
read_limited : Handle → ℕ → Exec Text
read_limited h n = do step; node ← gets (λ w. behind w.disk h); pure (take n node.bytes)

unfoldable pub check_marker : Volume → Text → Exec (Unit {0})
unfolding read_limited
check_marker v folder = do
  info ← lstat v (marker_name ∷ [])
  require (is_regular info.kind && leb (length info.bytes) 257) bad_marker
  f ← open_file v (marker_name ∷ [])
  b ← read_limited f 258
  require (b == (folder ++ b'\n' ∷ [])) marker_mismatch

unfoldable pub check_folder : Text → Text → Exec (Unit {0})
check_folder root folder = do v ← open_root root; check_marker v folder

unfoldable pub open_folder : Text → Text → Exec Volume
open_folder root folder = do v ← open_root root; check_marker v folder; pure v

-- What one element of a path may be: an existing directory, or a regular file if it is the last.
unfoldable pub component_error : FileKind → Bool → Exec (Unit {0})
component_error dir last = pure tt
component_error regular last = require last non_directory_parent
component_error _ last = fail unsupported_object

pub is_nil : List Text → Bool
is_nil [] = true
is_nil (_ ∷ _) = false

-- What `Lstat` said of an element. A missing one ends the loop, if that is allowed.
unfoldable pub check_element : Bool → Bool → Exec (Unit {0}) → Result Error Node → Exec (Unit {0})
unfolding component_error
check_element allow_missing last rest (ok info) = component_error info.kind last >> rest
check_element allow_missing last rest (err not_exist) = require allow_missing not_exist
check_element allow_missing last rest (err e) = fail e

-- The loop over the elements; `done` was checked.
unfoldable pub check_elements : Volume → Bool → FilePath → FilePath → Exec (Unit {0})
unfolding check_element is_nil
check_elements v allow_missing done [] = pure tt
check_elements v allow_missing done (part ∷ parts) = do
  r ← try (lstat v (done ++ part ∷ []))
  let rest = check_elements v allow_missing (done ++ part ∷ []) parts
  check_element allow_missing (is_nil parts) rest r

unfoldable pub check_components : Volume → Text → Bool → Exec (Unit {0})
check_components v name allow_missing = do
  lift (valid_path name)
  check_elements v allow_missing [] (split slash name)

-- Every directory can be opened and flushed as far as the model goes: only the steps can fail.
unfoldable pub sync_dir : Volume → FilePath → Exec (Unit {0})
sync_dir v p = do f ← open_file v p; step

-- `path.Dir`, of a path that is already clean
unfoldable pub parent : FilePath → FilePath
parent [] = []
parent (part ∷ []) = []
parent (part ∷ next ∷ parts) = part ∷ parent (next ∷ parts)

unfoldable pub ensure_directory : Volume → FilePath → Exec (Unit {0})
ensure_directory v [] = pure tt
ensure_directory v (part ∷ more) = do
  check_components v (join slash (part ∷ more)) true
  mkdir_all v 0o700 [] (part ∷ more)

unfoldable pub ensure_parents : Volume → FilePath → Exec (Unit {0})
unfolding ensure_directory
ensure_parents v parts = ensure_directory v (parent parts)
