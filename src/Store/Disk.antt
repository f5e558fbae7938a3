-- ===== src/Store/Disk.antt =====
-- What internal/store sees of the file system. A path below a root is the list of its elements, `[]`
-- being the root itself, and a volume is what an `os.Root` stays with when its path is remounted.
use native.Mathlib.Decide.{ℕ_discrete}
use backuply.Base.{
  ℕ, ◌+◌, Option, none, some, List, [], ◌∷◌, Eq, Text_discrete, ◌=ℕ◌, if◌then◌else◌,
}
use backuply.Base.Dict
use backuply.Base.Dict.{Dict}
use backuply.Text.{Text}

abbrev pub FilePath : Type 0
FilePath = List Text

pub data FileKind : Type 0 where
  regular dir symlink special : FileKind

-- `mode` holds the permission bits; `inode` is what os.SameFile compares.
pub record Node : Type 0 where
  pub kind : FileKind
  pub mode : ℕ
  pub bytes : Text
  pub mtime : ℕ
  pub inode : ℕ

abbrev pub Volume : Type 0
Volume = ℕ

abbrev pub Location : Type 0
Location = Volume × FilePath

unfoldable pub Location_discrete : Discrete Location
unfolding Text_discrete ℕ_discrete
Location_discrete = hlevel (ℕ_discrete, Text_discrete)

instance unfoldable pub location_eq : Eq Location
unfolding Location_discrete
location_eq = record { dec = Location_discrete }

-- `mounts` gives the volume at a configured path; `fresh` is the next inode.
pub record Disk : Type 0 where
  pub mounts : Dict Text Volume
  pub nodes : Dict Location Node
  pub fresh : ℕ

abbrev pub root_node : Node
root_node = record { kind = dir; mode = 0o700; bytes = []; mtime = 0; inode = 0 }

-- The node at a path; the root of a volume is a directory.
unfoldable pub node_at : Disk → Volume → FilePath → Option Node
node_at d v [] = some root_node
node_at d v (part ∷ parts) = Dict.lookup (v, part ∷ parts) d.nodes

unfoldable pub put_node : Volume → FilePath → Node → Disk → Disk
put_node v p n d = record d { nodes = Dict.insert (v, p) n d.nodes }

unfoldable pub remove_node : Volume → FilePath → Disk → Disk
remove_node v p d = record d { nodes = Dict.erase (v, p) d.nodes }

-- A node that did not exist before.
unfoldable pub new_node : FileKind → ℕ → Volume → FilePath → Disk → Disk
new_node kind mode v p d =
    put_node v p (record { kind = kind; mode = mode; bytes = []; mtime = 0; inode = d.fresh })
      (record d { fresh = d.fresh + 1 })

-- An open file: where it was opened, and what was there.
pub record Handle : Type 0 where
  pub volume : Volume
  pub path : FilePath
  pub opened : Node

-- The file behind a handle, which stays what it was when another file takes its place.
unfoldable pub behind : Disk → Handle → Node
behind d h = elim (node_at d h.volume h.path) [
  | none ↦ h.opened
  | some n ↦ if n.inode =ℕ h.opened.inode then n else h.opened
]
