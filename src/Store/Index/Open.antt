-- ===== src/Store/Index/Open.antt =====
-- The last statements of `Open` in internal/store/store.go, on the tables of a database that was there or
-- was created empty: the totals are computed anew from the rows.
pub mod Rebuilt
use backuply.Base.{ℕ, Option, List, [], ◌∷◌, length, leb, text_eq, if◌then◌else◌}
use backuply.Base.Dict
use backuply.Base.Dict.{Dict}
use backuply.Base.Result.{Result, ok, err, ◌>>=◌, ◌>>◌, guard}
use backuply.Text.{Text}
use backuply.Store.Error.{Error, unsupported_version}
use backuply.Store.Index.{Key, Db, Usage, Usages, inserted, store_usage}

-- SELECT folder,count(*),sum(length(manifest)+1) FROM entries GROUP BY folder
unfoldable pub grouped : Dict Key Text → Usages
grouped [] = []
grouped (((folder, path), raw) ∷ rows) =
    let groups = grouped rows in
    Dict.insert folder (inserted (length raw) (Dict.lookup folder groups)) groups

-- INSERT INTO folder_usage … ON CONFLICT(folder) DO UPDATE, group by group
unfoldable pub store_groups : Usages → Usages → Result Error Usages
store_groups [] usage = ok usage
store_groups ((folder, u) ∷ groups) usage = do
  usage' ← store_groups groups usage
  store_usage folder u usage'

-- `version` is the schema's, as PRAGMA user_version gives it.
unfoldable pub open_index : ℕ → Db → Result Error Db
open_index version db = do
  guard (leb version 1) unsupported_version
  usage ← store_groups (grouped db.rows) db.usage
  ok (record db { usage = usage })
