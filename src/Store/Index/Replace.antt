-- ===== src/Store/Index/Replace.antt =====
-- The transaction of `Scan`, which replaces a folder's rows.
pub mod Delete
pub mod Insert
use backuply.Base.{
  ℕ, ◌+◌, ◌≤◌, ◌≡◌, ◌≢◌, suc, refl, ◌∙◌, ap, arith, inl, inr, true, false, Option, none, some, List,
  [], ◌∷◌, length, text_eq, ◌==◌, ==_iff, if◌then◌else◌, Option-cases, Bool-cases, All,
}
use mathlib.Core.Option.{or_else}
use backuply.Base.Dict
use backuply.Base.Dict.{Dict}
use backuply.Base.Result.{ok, err, ◌>>=◌}
use backuply.Text.{Text}
use backuply.Model.{Entry}
use backuply.Store.Limits.{max_entries}
use backuply.Store.Codec.{Codec}
use backuply.Store.Index.{
  Db, Key, Usages, key_eq, inserted, store_usage, entries_insert, entries_or_0, bytes_or_0,
  max_usage_bytes, insert_row, insert_entries, delete_rows, replace_folder,
}
use backuply.Store.Index.Totals.{
  IsConsistent, count_of, bytes_of, count-insert, bytes-insert, new_row-IsConsistent, self,
}
use backuply.Store.Index.Replace.Delete.{
  without, delete_rows_lem, lookup-without, count_of-without, bytes_of-without, IsCleared,
}
use backuply.Store.Index.Replace.Insert.{
  NodupPaths, HasRoom, cost, manifest, Fresh, IsFilled, insert_entries_lem,
}

without_self :
    (folder : Text) (rows : Dict Key Text)
    → (count_of folder (without folder rows) ≡ 0) × (bytes_of folder (without folder rows) ≡ 0)
without_self folder rows = (
  ground (arith, count_of-without folder folder rows),
  ground (arith, bytes_of-without folder folder rows),
)

module _ (c : Codec) where
  -- The index with one folder replaced.
  pub record IsReplaced (folder : Text) (es : List Entry) (db db' : Db) : Type 0 where
    pub consistent : IsConsistent db'
    pub own :
        (path : Text) → Dict.lookup (folder, path) db'.rows ≡ manifest c folder es (folder, path)
    pub others :
        (f path : Text)
        → f ≢ folder
        → Dict.lookup (f, path) db'.rows ≡ Dict.lookup (f, path) db.rows

  manifest_other :
      (folder f path : Text) (es : List Entry) → f ≢ folder → manifest c folder es (f, path) ≡ none
  unfolding manifest
  manifest_other folder f path [] ne = refl
  manifest_other folder f path (e ∷ es) ne = ground (arith, manifest_other folder f path es ne)

  Fresh-without :
      (folder : Text) (rows : Dict Key Text) (usage : Usages) (es : List Entry)
      → Fresh c folder (record { rows = without folder rows; usage = usage }) es
  Fresh-without folder rows usage [] = tt
  Fresh-without folder rows usage (e ∷ es) = (
    ground (arith, lookup-without folder (folder, e.path) rows),
    Fresh-without folder rows usage es,
  )

  pub without-IsConsistent :
      (folder : Text) (db : Db) (usage' : Usages)
      → IsConsistent db
      → IsCleared folder db.usage usage'
      → IsConsistent (record { rows = without folder db.rows; usage = usage' })
  without-IsConsistent folder db usage' k cleared = record {
    entries = λ f.
        ground (
          arith,
          k.entries f,
          cleared.entries,
          cleared.others f,
          count_of-without folder f db.rows,
        );
    bytes = λ f.
        ground
          (arith, k.bytes f, cleared.bytes, cleared.others f, bytes_of-without folder f db.rows);
    entries_le = λ f. ground (arith, k.entries_le f, count_of-without folder f db.rows);
    bytes_le = λ f. ground (arith, k.bytes_le f, bytes_of-without folder f db.rows);
  }

  own_rows :
      (folder path : Text) (es : List Entry) (rows : Dict Key Text) {found : Option Text}
      → found
        ≡ or_else
            (manifest c folder es (folder, path))
            (Dict.lookup (folder, path) (without folder rows))
      → found ≡ manifest c folder es (folder, path)
  unfolding or_else
  own_rows folder path es rows h = ground (arith, lookup-without folder (folder, path) rows)

  other_rows :
      (folder f path : Text) (es : List Entry) (rows : Dict Key Text) {found : Option Text}
      → f ≢ folder
      → found
        ≡ or_else (manifest c folder es (f, path)) (Dict.lookup (f, path) (without folder rows))
      → found ≡ Dict.lookup (f, path) rows
  unfolding or_else
  other_rows folder f path es rows ne h =
      ground (arith, lookup-without folder (f, path) rows, manifest_other folder f path es ne)

  -- In a consistent index, `Scan`'s transaction on entries with distinct paths that are within both
  -- limits succeeds, replaces exactly the rows of its folder, and leaves the index consistent.
  pub replace_folder_lem :
      (folder : Text) (es : List Entry) (db : Db)
      → IsConsistent db
      → NodupPaths es
      → length es ≤ max_entries
      → cost c es ≤ max_usage_bytes
      → (db' : Db) × (replace_folder c folder es db ≡ ok db') × IsReplaced folder es db db'
  unfolding replace_folder
  replace_folder_lem folder es db k nodup n b =
      let (usage', deleted, cleared) =
        delete_rows_lem folder db.rows db.usage (k.entries folder) (k.bytes folder)
          (k.entries_le folder) (k.bytes_le folder) in
      let emptied : Db = record { rows = without folder db.rows; usage = usage' } in
      let (db', done, filled) =
        insert_entries_lem c folder es emptied (without-IsConsistent folder db usage' k cleared)
          (Fresh-without folder db.rows usage' es) nodup
          (record {
            entries = omega (arith, without_self folder db.rows);
            bytes = omega (arith, without_self folder db.rows);
          }) in
      (
        db',
        rw deleted done,
        record {
          consistent = filled.consistent;
          own = λ path. own_rows folder path es db.rows (filled.rows (folder, path));
          others = λ f path ne. other_rows folder f path es db.rows ne (filled.rows (f, path));
        },
      )
