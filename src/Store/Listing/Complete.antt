-- ===== src/Store/Listing/Complete.antt =====
-- On a consistent index `List` returns every entry of a folder.
use backuply.Base.{
  ℕ, ◌+◌, ◌≤◌, ◌≡◌, refl, sym, arith, inl, inr, true, ◌&&◌, some, List, [], ◌∷◌, ◌++◌, leb, ltb,
  length, length-append, text_eq, ◌==◌, ==_iff, Bool-cases, All,
}
use backuply.Base.Dict
use backuply.Base.Dict.{Dict}
use backuply.Base.Result.{ok}
use backuply.Text.{Text}
use backuply.Model.{Entry}
use backuply.Store.Limits.{max_entries, max_manifest_bytes}
use backuply.Store.Validate.{validate_entry}
use backuply.Store.Codec.{Codec}
use backuply.Store.Index.{Key, Db, key_eq}
use backuply.Store.Index.Totals.{IsConsistent, count_of, bytes_of}
use backuply.Store.Listing.{Row, text_le, insert_sorted, sorted_rows, collect, list}

size_of : List Row → ℕ
size_of [] = 0
size_of (row ∷ rows) = length row.1 + 1 + size_of rows

module _ (P : Text → Type 0) where
  insert_sorted_lem :
      (row : Row) (rows : List Row)
      → (length (insert_sorted row rows) ≡ length rows + 1)
        × (size_of (insert_sorted row rows) ≡ length row.1 + 1 + size_of rows)
        × (P row.1
            → All (λ (r : Row). P r.1) rows
            → All (λ (r : Row). P r.1) (insert_sorted row rows))
  unfolding insert_sorted size_of
  insert_sorted_lem row [] = (refl, refl, λ p ps. (p, tt))
  insert_sorted_lem row (next ∷ rows) = elim (Bool-cases (text_le row.0 next.0)) [
    | inl le ↦ rw le (omega arith, omega arith, λ p ps. (p, ps))
    | inr gt ↦
        let (n, s, k) = insert_sorted_lem row rows in
        rw gt (omega arith, omega arith, λ p ps. (ps.0, k p ps.1))
  ]

  sorted_rows_lem :
      (folder : Text) (rows : Dict Key Text)
      → (length (sorted_rows folder rows) ≡ count_of folder rows)
        × (size_of (sorted_rows folder rows) ≡ bytes_of folder rows)
        × (All (λ (row : Key × Text). row.0.0 ≡ folder → P row.1) rows
            → All (λ (r : Row). P r.1) (sorted_rows folder rows))
  unfolding sorted_rows size_of Dict.total
  sorted_rows_lem folder [] = (refl, refl, λ ps. tt)
  sorted_rows_lem folder (((f, path), raw) ∷ rows) =
      let (n, s, k) = sorted_rows_lem folder rows in
      elim (Bool-cases (folder == f)) [
        | inl same ↦
            let (n', s', k') = insert_sorted_lem (path, raw) (sorted_rows folder rows) in
            rw same
              (omega arith, omega arith, λ ps. k' (ps.0 (sym ((==_iff folder f).0 same))) (k ps.1))
        | inr other ↦ rw other (omega arith, omega arith, λ ps. k ps.1)
      ]

-- A manifest that is read back as an entry that is accepted
abbrev pub IsStored : Codec → Text → Type 0
IsStored c raw = (e : Entry) × (c.unmarshal raw ≡ some e) × (validate_entry e ≡ ok tt)

module _ (c : Codec) where
  collect_lem :
      (rows : List Row) (bytes : ℕ) (entries : List Entry)
      → All (λ (r : Row). IsStored c r.1) rows
      → length entries + length rows ≤ max_entries
      → bytes + size_of rows ≤ max_manifest_bytes
      → (es : List Entry) × (collect c rows bytes entries ≡ ok es)
        × (length es ≡ length entries + length rows)
  unfolding collect size_of
  collect_lem [] bytes entries h n b = (entries, refl, omega arith)
  collect_lem (row ∷ rows) bytes entries h n b =
      let (e, read, valid) = h.0 in
      let fits : (ltb (length entries) max_entries
            && leb (bytes + length row.1 + 1) max_manifest_bytes)
          ≡ true =
        ground arith in
      let (es, done, count) =
        collect_lem rows (bytes + length row.1 + 1) (entries ++ e ∷ []) h.1
          (omega (arith, length-append {0} entries (e ∷ []))) (omega arith) in
      (es, rw (fits, read, valid) done, omega (arith, length-append {0} entries (e ∷ [])))

-- In a consistent index whose manifests of a folder are entries that are accepted, `List` does not
-- meet its limits or any other error, and returns as many entries as the folder has rows.
pub list_complete :
    (c : Codec) (folder : Text) (db : Db)
    → IsConsistent db
    → All (λ (row : Key × Text). row.0.0 ≡ folder → IsStored c row.1) db.rows
    → (es : List Entry) × (list c folder db ≡ ok es) × (length es ≡ count_of folder db.rows)
unfolding list
list_complete c folder db k stored =
    let (n, s, all_stored) = sorted_rows_lem (IsStored c) folder db.rows in
    let (es, done, count) =
      collect_lem c (sorted_rows folder db.rows) 2 [] (all_stored stored)
        (omega (arith, k.entries_le folder)) (omega (arith, k.bytes_le folder)) in
    (es, done, omega arith)
