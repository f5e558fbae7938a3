-- ===== src/Store/Init.antt =====
-- `InitFolder` of internal/store/files.go.
use backuply.Base.{Bool, ◌&&◌, not, none, some, [], ◌∷◌, ◌++◌, leb, length, text_eq, ◌==◌}
use backuply.Base.Dict
use backuply.Base.Result.{Result, ok, err}
use backuply.Text.{Text, contains_any}
use backuply.Store.Limits.{marker_name}
use backuply.Store.Error.{Error, already_exists, invalid_folder_id}
use backuply.Store.Disk.{Volume, Disk}
use backuply.Store.Exec.{Exec, fail, ◌>>=◌, ◌>>◌, require, step, try, change_disk}
use backuply.Store.Root.{open_root, create, append_file}
use backuply.Store.Folder.{check_marker, sync_dir}

unfoldable pub valid_folder_id : Text → Bool
valid_folder_id folder =
    not (folder == [])
    && leb (length folder) 256
    && not (contains_any folder (b'\r' ∷ b'\n' ∷ 0 ∷ []))

-- What creating the marker said: an old marker is checked, and a new one is written and flushed.
write_marker : Volume → Text → Result Error (Unit {0}) → Exec (Unit {0})
write_marker v folder (err already_exists) = check_marker v folder
write_marker v folder (err e) = fail e
write_marker v folder (ok _) = do
  append_file v (marker_name ∷ []) (folder ++ b'\n' ∷ [])
  step
  sync_dir v []

-- `mount` is the volume that os.MkdirAll leaves at the root's path where there was none.
make_root : Text → Volume → Disk → Disk
make_root root mount d = elim (Dict.lookup root d.mounts) [
  | none ↦ record d { mounts = Dict.insert root mount d.mounts }
  | some v ↦ d
]

unfoldable pub init_folder : Text → Volume → Text → Exec (Unit {0})
unfolding write_marker make_root
init_folder root mount folder = do
  require (valid_folder_id folder) invalid_folder_id
  step
  change_disk (make_root root mount)
  v ← open_root root
  r ← try (create v (marker_name ∷ []) 0o600)
  write_marker v folder r
