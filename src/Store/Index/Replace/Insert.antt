-- ===== src/Store/Index/Replace/Insert.antt =====
-- The insertions of `Scan`'s transaction.
use backuply.Base.{
  ℕ, ◌+◌, ◌≤◌, ◌≡◌, ◌≢◌, suc, refl, ◌∙◌, arith, Option, none, some, List, [], ◌∷◌, length, text_eq,
  ◌==◌, if◌then◌else◌, All,
}
use mathlib.Core.Option.{or_else}
use backuply.Base.Dict
use backuply.Base.Dict.{Dict}
use backuply.Base.Result.{ok}
use backuply.Text.{Text}
use backuply.Model.{Entry}
use backuply.Store.Limits.{max_entries}
use backuply.Store.Codec.{Codec}
use backuply.Store.Index.{
  Db, Key, Usages, key_eq, inserted, store_usage, entries_insert, entries_or_0, bytes_or_0,
  max_usage_bytes, insert_row, insert_entries,
}
use backuply.Store.Index.Totals.{
  IsConsistent, count_of, bytes_of, count-insert, bytes-insert, new_row-IsConsistent, self,
}

abbrev pub NodupPaths : List Entry → Type 0
NodupPaths [] = Unit
NodupPaths (e ∷ es) = All (λ (d : Entry). d.path ≢ e.path) es × NodupPaths es

entries_insert_fits :
    (folder : Text) (n : ℕ) (usage : Usages)
    → entries_or_0 (Dict.lookup folder usage) + 1 ≤ max_entries
    → bytes_or_0 (Dict.lookup folder usage) + (n + 1) ≤ max_usage_bytes
    → entries_insert folder n usage
      ≡ ok (Dict.insert folder (inserted n (Dict.lookup folder usage)) usage)
unfolding entries_insert store_usage
entries_insert_fits folder n usage h k = ground arith

insert_row_fresh :
    (folder path raw : Text) (db : Db) {usage' : Usages}
    → Dict.lookup (folder, path) db.rows ≡ none
    → entries_insert folder (length raw) db.usage ≡ ok usage'
    → insert_row folder path raw db
      ≡ ok (record { rows = Dict.insert (folder, path) raw db.rows; usage = usage' })
unfolding insert_row
insert_row_fresh folder path raw db fresh h = rw (fresh, insert_row, h)

-- The index after one insertion that fits.
with_row : Text → Text → Text → Db → Db
with_row folder path raw db = record {
  rows = Dict.insert (folder, path) raw db.rows;
  usage = Dict.insert folder (inserted (length raw) (Dict.lookup folder db.usage)) db.usage;
}

-- Both totals of a folder have room for so many entries and bytes more.
pub record HasRoom (folder : Text) (n b : ℕ) (db : Db) : Type 0 where
  pub entries : count_of folder db.rows + n ≤ max_entries
  pub bytes : bytes_of folder db.rows + b ≤ max_usage_bytes

module _ (folder path raw : Text) (db : Db) (k : IsConsistent db)
    (fresh : Dict.lookup (folder, path) db.rows ≡ none) where
  count_of-with_row :
      count_of folder (with_row folder path raw db).rows ≡ count_of folder db.rows + 1
  unfolding with_row
  count_of-with_row =
      let h = rw fresh at (count-insert folder path raw folder db.rows) in
      ground (arith, self folder)

  bytes_of-with_row :
      bytes_of folder (with_row folder path raw db).rows
      ≡ bytes_of folder db.rows + (length raw + 1)
  unfolding with_row
  bytes_of-with_row =
      let h = rw fresh at (bytes-insert folder path raw folder db.rows) in
      ground (arith, self folder)

  module _ (n b : ℕ) (room : HasRoom folder (suc n) (length raw + 1 + b) db) where
    charged :
        entries_insert folder (length raw) db.usage
        ≡ ok (Dict.insert folder (inserted (length raw) (Dict.lookup folder db.usage)) db.usage)
    charged =
        entries_insert_fits folder (length raw) db.usage
          (omega (arith, k.entries folder, room.entries))
          (omega (arith, k.bytes folder, room.bytes))

    insert_row-with_row : insert_row folder path raw db ≡ ok (with_row folder path raw db)
    unfolding with_row
    insert_row-with_row = insert_row_fresh folder path raw db fresh charged

    with_row-IsConsistent : IsConsistent (with_row folder path raw db)
    unfolding with_row
    with_row-IsConsistent = new_row-IsConsistent folder path raw db k fresh charged

    with_row-HasRoom : HasRoom folder n b (with_row folder path raw db)
    with_row-HasRoom = record {
      entries = omega (arith, count_of-with_row, room.entries);
      bytes = omega (arith, bytes_of-with_row, room.bytes);
    }

module _ (c : Codec) where
  -- What these entries take in the index.
  unfoldable pub cost : List Entry → ℕ
  cost [] = 0
  cost (e ∷ es) = length (c.marshal e) + 1 + cost es

  -- The row of a key among the rows of these entries.
  unfoldable pub manifest : Text → List Entry → Key → Option Text
  manifest folder [] key = none
  manifest folder (e ∷ es) key =
      if key == (folder, e.path) then some (c.marshal e) else manifest folder es key

  abbrev pub Fresh : Text → Db → List Entry → Type 0
  Fresh folder db = All (λ (e : Entry). Dict.lookup (folder, e.path) db.rows ≡ none)

  -- The index after the rows were inserted.
  pub record IsFilled (folder : Text) (es : List Entry) (db db' : Db) : Type 0 where
    pub consistent : IsConsistent db'
    pub rows :
        (key : Key)
        → Dict.lookup key db'.rows ≡ or_else (manifest folder es key) (Dict.lookup key db.rows)

  Fresh-with_row :
      (folder path raw : Text) (db : Db) (es : List Entry)
      → All (λ (d : Entry). d.path ≢ path) es
      → Fresh folder db es
      → Fresh folder (with_row folder path raw db) es
  Fresh-with_row folder path raw db [] ne h = tt
  Fresh-with_row folder path raw db (d ∷ es) ne h = (
    unfold with_row in
        ground (arith, Dict.lookup-insert (folder, d.path) (folder, path) raw db.rows, ne.0, h.0),
    Fresh-with_row folder path raw db es ne.1 h.1,
  )

  manifest_fresh :
      (folder path : Text) (es : List Entry)
      → All (λ (d : Entry). d.path ≢ path) es
      → manifest folder es (folder, path) ≡ none
  unfolding manifest
  manifest_fresh folder path [] h = refl
  manifest_fresh folder path (e ∷ es) h = ground (arith, manifest_fresh folder path es h.1, h.0)

  IsFilled-with_row :
      (folder : Text) (e : Entry) (es : List Entry) (db db' : Db)
      → All (λ (d : Entry). d.path ≢ e.path) es
      → IsFilled folder es (with_row folder e.path (c.marshal e) db) db'
      → IsFilled folder (e ∷ es) db db'
  unfolding with_row or_else manifest
  IsFilled-with_row folder e es db db' ne h = record {
    consistent = h.consistent;
    rows = λ key. ground (
      arith,
      h.rows key,
      manifest_fresh folder e.path es ne,
      Dict.lookup-insert key (folder, e.path) (c.marshal e) db.rows,
    );
  }

  insert_entries_step :
      (folder : Text) (e : Entry) (es : List Entry) (db db1 : Db)
      → insert_row folder e.path (c.marshal e) db ≡ ok db1
      → insert_entries c folder (e ∷ es) db ≡ insert_entries c folder es db1
  unfolding insert_entries
  insert_entries_step folder e es db db1 h = rw h

  pub insert_entries_lem :
      (folder : Text) (es : List Entry) (db : Db)
      → IsConsistent db
      → Fresh folder db es
      → NodupPaths es
      → HasRoom folder (length es) (cost es) db
      → (db' : Db) × (insert_entries c folder es db ≡ ok db') × IsFilled folder es db db'
  unfolding cost
  insert_entries_lem folder [] db k fresh nodup room = (
    db,
    unfold insert_entries in refl,
    record { consistent = k; rows = λ key. unfold manifest or_else in refl },
  )
  insert_entries_lem folder (e ∷ es) db k fresh nodup room =
      let raw = c.marshal e in
      let (db', done, filled) =
        insert_entries_lem folder es (with_row folder e.path raw db)
          (with_row-IsConsistent folder e.path raw db k fresh.0 (length es) (cost es) room)
          (Fresh-with_row folder e.path raw db es nodup.0 fresh.1) nodup.1
          (with_row-HasRoom folder e.path raw db k fresh.0 (length es) (cost es) room) in
      (
        db',
        insert_entries_step folder e es db (with_row folder e.path raw db)
              (insert_row-with_row folder e.path raw db k fresh.0 (length es) (cost es) room)
            ∙ done,
        IsFilled-with_row folder e es db db' nodup.0 filled,
      )
