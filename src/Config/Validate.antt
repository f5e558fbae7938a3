-- ===== src/Config/Validate.antt =====
-- `Validate` of internal/config/config.go, and `Parse` as a whole.
pub mod Exact
pub mod Disjoint
pub mod Tables
pub mod Roots
use backuply.Base.{
  ℕ, ◌≡◌, refl, Bool, true, false, ◌&&◌, ◌||◌, not, Option, none, some, List, [], ◌∷◌, ◌++◌, leb,
  ltb, length, text_eq, ◌==◌, contains, if◌then◌else◌, any,
}
use backuply.Base.Dict
use backuply.Base.Dict.{Dict}
use backuply.Base.Int.{ℤ, pos, negsuc}
use backuply.Base.Result.{Result, ok, err, ◌>>=◌, ◌>>◌, guard}
use backuply.Text.{Text, codes}
use backuply.Text.Cut.{holds}
use backuply.Config.{Config, Peer, Folder, local}
use backuply.Config.Error.{
  Error, Check, bad_listen, too_many, short_interval, bad_peer_name, bad_peer_address,
  bad_device_id, same_device_id, bad_folder_id, unknown_peer, duplicate_peer, bad_source,
  path_not_absolute, paths_overlap,
}
use backuply.Config.Library.{Library, Files}
use backuply.Config.Names.{is_name, is_device_id}
use backuply.Config.Address.{valid_address}
use backuply.Config.Paths.{is_absolute, clean, canonical_path, contains_path}
use backuply.Config.Parse.{read_config}

-- `c.ScanInterval < 100*time.Millisecond` does not hold
abbrev pub long_enough : ℤ → Bool
long_enough (pos n) = leb 100000000 n
long_enough (negsuc n) = false

-- The loop over the peers, with the device IDs so far
unfoldable pub validate_peers : Dict Text Peer → List Text → Check
validate_peers [] ids = ok tt
validate_peers ((name, p) ∷ peers) ids = do
  guard (is_name name && not (name == local) && p.name == name) bad_peer_name
  guard (valid_address p.address false) bad_peer_address
  guard (is_device_id p.device_id) bad_device_id
  guard (not (contains p.device_id ids)) same_device_id
  validate_peers peers (p.device_id ∷ ids)

is_some : Option Peer → Bool
is_some none = false
is_some (some p) = true

-- The loop over the peers of a folder, with those so far
unfoldable pub validate_folder_peers : Dict Text Peer → List Text → List Text → Check
unfolding is_some
validate_folder_peers known [] seen = ok tt
validate_folder_peers known (name ∷ names) seen = do
  guard (is_some (Dict.lookup name known)) unknown_peer
  guard (not (contains name seen)) duplicate_peer
  validate_folder_peers known names (name ∷ seen)

unfoldable pub validate_folders : Dict Text Peer → Dict Text Folder → Check
validate_folders known [] = ok tt
validate_folders known ((id, f) ∷ folders) = do
  guard (is_name id && f.id == id) bad_folder_id
  validate_folder_peers known f.peers []
  guard (f.source == local || contains f.source f.peers) bad_source
  validate_folders known folders

folder_paths : Dict Text Folder → List Text
folder_paths [] = []
folder_paths ((id, f) ∷ folders) = f.path ∷ folder_paths folders

-- The state directory's path and the folders' paths
unfoldable pub all_paths : Config → List Text
unfolding folder_paths
all_paths c = c.state_dir ∷ folder_paths c.folders

abbrev pub overlap : List Text → List Text → Bool
overlap p q = contains_path p q || contains_path q p

-- The loop over the paths, with the resolved ones so far
unfoldable pub validate_paths : Files → List Text → List (List Text) → Check
validate_paths files [] resolved = ok tt
validate_paths files (path ∷ paths) resolved = do
  guard (is_absolute path && not (holds 0 path)) path_not_absolute
  canonical ← canonical_path files (clean path)
  guard (not (any (overlap canonical) resolved)) paths_overlap
  validate_paths files paths (canonical ∷ resolved)

unfoldable pub validate : Files → Config → Check
validate files c = do
  guard (valid_address c.listen true) bad_listen
  guard (leb (length c.peers) 32 && leb (length c.folders) 128) too_many
  guard (long_enough c.scan_interval) short_interval
  validate_peers c.peers []
  validate_folders c.peers c.folders
  validate_paths files (all_paths c) []

unfoldable pub parse : Library → Files → Text → Result Error Config
parse lib files text = do c ← read_config lib text; validate files c; ok c

-- `Load`, where `read` gives what the file holds
unfoldable pub load : Library → Files → (Text → Result Error Text) → Text → Result Error Config
load lib files read path = do text ← read path; parse lib files text
