-- ===== src/Store/Index.antt =====
-- The SQL of internal/store/store.go: the tables `entries` and `folder_usage`, the three triggers,
-- and the statements. A statement that fails has changed nothing. The CHECK of `folder_usage` on the
-- row that an upsert proposes never fails where the one on the updated row passes.
pub mod Totals
pub mod Open
pub mod Capacity
pub mod Replace
use mathlib.Core.List.{map}
use backuply.Base.{
  ℕ, ◌+◌, ◌-◌, Bool, ◌&&◌, ◌||◌, Option, none, some, List, [], ◌∷◌, leb, ltb, ◌=ℕ◌, length, Eq,
  text_eq, Text_discrete, ◌==◌, if◌then◌else◌,
}
use backuply.Base.Dict
use backuply.Base.Dict.{Dict}
use backuply.Base.Result.{Result, ok, err, ◌>>=◌, ◌>>◌, guard}
use backuply.Text.{Text}
use backuply.Model.{Entry}
use backuply.Store.Limits.{max_entries, max_manifest_bytes}
use backuply.Store.Error.{Error, Check, limits_exceeded, constraint_failed, bad_json, no_rows}
use backuply.Store.Validate.{validate_entry}
use backuply.Store.Codec.{Codec}

abbrev pub Key : Type 0
Key = Text × Text

unfoldable pub Key_discrete : Discrete Key
unfolding Text_discrete
Key_discrete = hlevel Text_discrete

instance unfoldable pub key_eq : Eq Key
unfolding Key_discrete
key_eq = record { dec = Key_discrete }

pub record Usage : Type 0 where
  pub entries : ℕ
  pub bytes : ℕ

-- `entries` by folder and path, and `folder_usage` by folder
pub record Db : Type 0 where
  pub rows : Dict Key Text
  pub usage : Dict Text Usage

abbrev pub max_usage_bytes : ℕ
max_usage_bytes = max_manifest_bytes - 2

-- The CHECK constraints, on numbers that are at least 0.
abbrev pub fits : Usage → Bool
fits u = leb u.entries max_entries && leb u.bytes max_usage_bytes

abbrev pub Usages : Type 0
Usages = Dict Text Usage

unfoldable pub store_usage : Text → Usage → Usages → Result Error Usages
store_usage folder u usage =
    if fits u then ok (Dict.insert folder u usage) else err constraint_failed

-- AFTER INSERT
abbrev pub inserted : ℕ → Option Usage → Usage
inserted n none = record { entries = 1; bytes = n + 1 }
inserted n (some u) = record { entries = u.entries + 1; bytes = u.bytes + n + 1 }

pub entries_insert : Text → ℕ → Usages → Result Error Usages
unfolding store_usage
entries_insert folder n usage = store_usage folder (inserted n (Dict.lookup folder usage)) usage

-- AFTER UPDATE; a negative sum violates the CHECK
entries_update : Text → ℕ → ℕ → Usages → Result Error Usages
unfolding store_usage
entries_update folder new old usage = elim (Dict.lookup folder usage) [
  | none ↦ ok usage
  | some u ↦
      if ltb (u.bytes + new) old
      then err constraint_failed
      else store_usage folder (record u { bytes = u.bytes + new - old }) usage
]

-- AFTER DELETE
pub entries_delete : Text → ℕ → Usages → Result Error Usages
unfolding store_usage
entries_delete folder n usage = elim (Dict.lookup folder usage) [
  | none ↦ ok usage
  | some u ↦
      if u.entries =ℕ 0 || ltb u.bytes (n + 1)
      then err constraint_failed
      else store_usage folder (record { entries = u.entries - 1; bytes = u.bytes - n - 1 }) usage
]

-- INSERT INTO entries … ON CONFLICT(folder,path) DO UPDATE SET manifest=excluded.manifest
unfoldable pub upsert : Text → Text → Text → Db → Result Error Db
unfolding entries_insert entries_update
upsert folder path raw db = elim (Dict.lookup (folder, path) db.rows) [
  | none ↦ do
    usage ← entries_insert folder (length raw) db.usage
    ok (record { rows = Dict.insert (folder, path) raw db.rows; usage = usage })
  | some old ↦ do
    usage ← entries_update folder (length raw) (length old) db.usage
    ok (record { rows = Dict.insert (folder, path) raw db.rows; usage = usage })
]

-- INSERT INTO entries(folder,path,manifest) VALUES(?,?,?)
unfoldable pub insert_row : Text → Text → Text → Db → Result Error Db
insert_row folder path raw db = elim (Dict.lookup (folder, path) db.rows) [
  | none ↦ do
    usage ← entries_insert folder (length raw) db.usage
    ok (record { rows = Dict.insert (folder, path) raw db.rows; usage = usage })
  | some old ↦ err constraint_failed
]

-- DELETE FROM entries WHERE folder=?, row by row
unfoldable pub delete_rows : Text → Dict Key Text → Usages → Result Error Db
delete_rows folder [] usage = ok (record { rows = []; usage = usage })
delete_rows folder (((f, path), raw) ∷ rows) usage =
    let drop = (do
      usage' ← entries_delete folder (length raw) usage
      delete_rows folder rows usage') in
    let keep = (do
      db ← delete_rows folder rows usage
      ok (record db { rows = ((f, path), raw) ∷ db.rows })) in
    if folder == f then drop else keep

module _ (c : Codec) where
  -- `get`
  unfoldable pub get : Text → Text → Db → Result Error Entry
  get folder path db = elim (Dict.lookup (folder, path) db.rows) [
    | none ↦ err no_rows
    | some raw ↦ elim (c.unmarshal raw) [ none ↦ err bad_json | some e ↦ ok e ]
  ]

  -- `put`
  unfoldable pub put : Text → Entry → Db → Result Error Db
  put folder e db = upsert folder e.path (c.marshal e) db

  -- The statements of `Scan`'s transaction behind the DELETE.
  unfoldable pub insert_entries : Text → List Entry → Db → Result Error Db
  insert_entries folder [] db = ok db
  insert_entries folder (e ∷ es) db = do
    db' ← insert_row folder e.path (c.marshal e) db
    insert_entries folder es db'

  -- `Scan`'s transaction: an error rolls it back.
  unfoldable pub replace_folder : Text → List Entry → Db → Result Error Db
  replace_folder folder es db = do
    emptied ← delete_rows folder db.rows db.usage
    insert_entries folder es emptied

-- COALESCE of the columns of a usage row
abbrev pub entries_or_0 : Option Usage → ℕ
entries_or_0 none = 0
entries_or_0 (some u) = u.entries

abbrev pub bytes_or_0 : Option Usage → ℕ
bytes_or_0 none = 0
bytes_or_0 (some u) = u.bytes

abbrev pub present : Option Text → ℕ
present none = 0
present (some raw) = 1

abbrev pub row_bytes : Option Text → ℕ
row_bytes none = 0
row_bytes (some raw) = length raw + 1

module _ (c : Codec) where
  -- `checkCapacity`. Where a difference is negative in SQL it is 0 here, and passes the test alike.
  unfoldable pub check_capacity : Text → Entry → Db → Check
  check_capacity folder e db =
      let used = Dict.lookup folder db.usage in
      let old = Dict.lookup (folder, e.path) db.rows in
      let count = entries_or_0 used + 1 - present old in
      let size = bytes_or_0 used + (length (c.marshal e) + 1) - row_bytes old in
      if ltb max_entries count || ltb max_usage_bytes size then err limits_exceeded else ok tt
