-- ===== src/Store/Listing.antt =====
-- `List` of internal/store/store.go.
pub mod Complete
use backuply.Base.{
  ℕ, ◌+◌, Bool, true, false, ◌&&◌, ◌||◌, Option, none, some, List, [], ◌∷◌, ◌++◌, ◌=ℕ◌, leb, ltb,
  length, text_eq, ◌==◌, if◌then◌else◌,
}
use backuply.Base.Dict.{Dict}
use backuply.Base.Result.{Result, ok, err, ◌>>=◌, ◌>>◌, guard}
use backuply.Text.{Text}
use backuply.Model.{Entry}
use backuply.Store.Limits.{max_entries, max_manifest_bytes}
use backuply.Store.Error.{Error, limits_exceeded, bad_json}
use backuply.Store.Validate.{validate_entry}
use backuply.Store.Codec.{Codec}
use backuply.Store.Index.{Key, Db}

-- SQLite's order on text: byte by byte
unfoldable pub text_le : Text → Text → Bool
text_le [] q = true
text_le (x ∷ xs) [] = false
text_le (x ∷ xs) (y ∷ ys) = ltb x y || (x =ℕ y && text_le xs ys)

abbrev pub Row : Type 0
Row = Text × Text

unfoldable pub insert_sorted : Row → List Row → List Row
insert_sorted row [] = row ∷ []
insert_sorted row (next ∷ rows) =
    let rest = insert_sorted row rows in
    if text_le row.0 next.0 then row ∷ (next ∷ rows) else next ∷ rest

-- SELECT manifest FROM entries WHERE folder=? ORDER BY path
unfoldable pub sorted_rows : Text → Dict Key Text → List Row
sorted_rows folder [] = []
sorted_rows folder (((f, path), raw) ∷ rows) =
    let rest = sorted_rows folder rows in
    if folder == f then insert_sorted (path, raw) rest else rest

module _ (c : Codec) where
  decode : Option Entry → Result Error Entry
  decode none = err bad_json
  decode (some e) = ok e

  -- The loop over the rows, with the entries and the bytes so far
  unfoldable pub collect : List Row → ℕ → List Entry → Result Error (List Entry)
  unfolding decode
  collect [] bytes entries = ok entries
  collect ((path, raw) ∷ rows) bytes entries = do
    guard (ltb (length entries) max_entries && leb (bytes + length raw + 1) max_manifest_bytes)
        limits_exceeded
    e ← decode (c.unmarshal raw)
    validate_entry e
    collect rows (bytes + length raw + 1) (entries ++ e ∷ [])

  unfoldable pub list : Text → Db → Result Error (List Entry)
  list folder db = collect (sorted_rows folder db.rows) 2 []
