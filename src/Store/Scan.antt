-- ===== src/Store/Scan.antt =====
-- `Scan` of internal/store/scan.go, with fs.WalkDir, which calls it for each name below the root: a
-- directory before what it holds, and names in order. `max_depth` bounds the depth of the recursion:
-- a deeper path is too long for `validPath`.
pub mod Depth
pub mod Untouched
use backuply.Base.{
  ℕ, zero, suc, ◌+◌, Bool, true, false, ◌&&◌, Option, none, some, List, [], ◌∷◌, ◌++◌, ◌=ℕ◌, leb,
  ltb, length, text_eq, ◌==◌, if◌then◌else◌,
}
use backuply.Base.Int.{pos}
use backuply.Base.Dict
use backuply.Base.Dict.{Dict}
use backuply.Base.Result.{Result, ok, err}
use backuply.Text.{Text, codes}
use backuply.Text.Split.{join}
use backuply.Model.{Entry, directory}
use backuply.Store.Limits.{max_entries}
use backuply.Store.Error.{Error, unsupported_type, too_deep, limits_exceeded}
use backuply.Store.Path.{slash, reserved}
use backuply.Store.Codec.{Codec}
use backuply.Store.Index.{Db, max_usage_bytes, replace_folder}
use backuply.Store.Disk.{
  Volume, FilePath, FileKind, regular, dir, symlink, special, Location, Node, Disk,
}
use backuply.Store.Exec.{Exec, pure, fail, lift, ◌>>=◌, ◌>>◌, require, step, gets, change_db}
use backuply.Store.Root.{lstat}
use backuply.Store.Folder.{check_folder, check_marker, open_folder, check_components}
use backuply.Store.Fingerprint.{fingerprint}
use backuply.Store.Listing.{text_le}

-- What ReadDir says of a name
abbrev pub Listed : Type 0
Listed = Text × FileKind

insert_name : Listed → List Listed → List Listed
insert_name x [] = x ∷ []
insert_name x (y ∷ ys) =
    let rest = insert_name x ys in if text_le x.0 y.0 then x ∷ (y ∷ ys) else y ∷ rest

-- The name of a file that stands directly in a directory
child_name : FilePath → FilePath → Option Text
child_name [] [] = none
child_name [] (part ∷ []) = some part
child_name [] (part ∷ more ∷ parts) = none
child_name (d ∷ ds) [] = none
child_name (d ∷ ds) (part ∷ parts) = if d == part then child_name ds parts else none

add_child : Volume → FilePath → Location × Node → List Listed → List Listed
unfolding insert_name child_name
add_child v p ((u, path), n) rest =
    if u =ℕ v
    then elim (child_name p path) [ none ↦ rest | some name ↦ insert_name (name, n.kind) rest ]
    else rest

children : Volume → FilePath → Dict Location Node → List Listed
unfolding add_child
children v p [] = []
children v p (entry ∷ nodes) = add_child v p entry (children v p nodes)

unfoldable pub read_dir : Volume → FilePath → Exec (List Listed)
unfolding children
read_dir v p = do step; gets (λ w. children v p w.disk.nodes)

-- The entries so far, and the bytes of their manifests
pub record Walked : Type 0 where
  pub entries : List Entry
  pub bytes : ℕ

unfoldable pub base_name : FilePath → Text
base_name [] = []
base_name (part ∷ []) = part
base_name (part ∷ next ∷ parts) = base_name (next ∷ parts)

abbrev pub max_depth : ℕ
max_depth = 4098

module _ (c : Codec) where
  -- The entry of a name, by what Lstat says of it
  scan_entry : Volume → Text → Node → FileKind → Exec Entry
  scan_entry v name info dir = pure (record {
    path = name;
    kind = directory;
    size = pos 0;
    mode = info.mode;
    hash = [];
    blocks = [];
  })
  scan_entry v name info regular = fingerprint c v name
  scan_entry v name info _ = fail unsupported_type

  unfoldable pub visit_name : Volume → FilePath → Walked → Exec (Option Walked)
  unfolding scan_entry
  visit_name v parts acc = do
    check_components v (join slash parts) false
    info ← lstat v parts
    e ← scan_entry v (join slash parts) info info.kind
    let bytes = acc.bytes + length (c.marshal e) + 1
    require (ltb (length acc.entries) max_entries && leb bytes max_usage_bytes) limits_exceeded
    pure (some (record { entries = acc.entries ++ e ∷ []; bytes = bytes }))

  -- The callback: none for a reserved name, which is passed over with all that it holds
  unfoldable pub visit : Volume → FilePath → Walked → Exec (Option Walked)
  unfolding base_name visit_name
  visit v parts acc = do
    step
    if reserved (base_name parts) then pure none else visit_name v parts acc

  -- A directory that was not passed over is entered.
  unfoldable pub enter : FileKind → Walked → (Walked → Exec Walked) → Option Walked → Exec Walked
  enter kind acc deeper none = pure acc
  enter dir acc deeper (some acc') = deeper acc'
  enter _ acc deeper (some acc') = pure acc'

  -- The names of a directory in turn
  unfoldable pub walk_all : (Listed → Walked → Exec Walked) → List Listed → Walked → Exec Walked
  walk_all one [] acc = pure acc
  walk_all one (x ∷ xs) acc = do acc' ← one x acc; walk_all one xs acc'

  unfoldable pub walk : ℕ → Volume → FilePath → FileKind → Walked → Exec Walked
  unfolding enter
  walk zero v parts kind acc = do r ← visit v parts acc; enter kind acc (λ _. fail too_deep) r
  walk (suc k) v parts kind acc = do
    r ← visit v parts acc
    enter kind acc
        (λ acc'. do
          names ← read_dir v parts
          walk_all (λ x a. walk k v (parts ++ x.0 ∷ []) x.1 a) names acc')
        r

  unfoldable pub store_db : Result Error Db → Exec (Unit {0})
  store_db (ok db) = change_db db
  store_db (err e) = fail e

  -- The transaction takes effect as a whole or not at all, so one step stands for its statements.
  unfoldable pub scan : Text → Text → Exec (List Entry)
  unfolding store_db
  scan folder root = do
    v ← open_folder root folder
    step
    names ← read_dir v []
    walked ←
        walk_all (λ x a. walk max_depth v (x.0 ∷ []) x.1 a) names
          (record { entries = []; bytes = 0 })
    check_folder root folder
    check_marker v folder
    step
    db ← gets (λ w. replace_folder c folder walked.entries w.db)
    store_db db
    pure walked.entries
