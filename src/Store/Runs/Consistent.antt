-- ===== src/Store/Runs/Consistent.antt =====
-- The totals of the index stay true and within the limits in every run of the store.
use backuply.Base.{◌≡◌, sym, inl, inr, List, [], ◌∷◌, length, text_eq, Option-cases}
use mathlib.Core.Path.{subst}
use backuply.Base.Dict
use backuply.Base.Result.{Result, ok, err, ok-injective, bind-eq-ok}
use backuply.Text.{Text}
use backuply.Model.{Entry}
use backuply.Store.Error.{Error}
use backuply.Store.Codec.{Codec}
use backuply.Store.Index
use backuply.Store.Index.{
  Db, key_eq, insert_row, entries_insert, insert_entries, delete_rows, replace_folder,
}
use backuply.Store.Index.Totals.{IsConsistent, new_row-IsConsistent, upsert-IsConsistent}
use backuply.Store.Index.Replace.{without-IsConsistent}
use backuply.Store.Index.Replace.Delete.{delete_rows_lem}
use backuply.Store.Exec.{World}
use backuply.Store.Exec.Keeps.{Post}
use backuply.Store.Apply.{apply}
use backuply.Store.Apply.Recorded.{apply-Recorded}
use backuply.Store.Scan.{scan}
use backuply.Store.Scan.Untouched.{scan_all_or_nothing}
use backuply.Store.Runs.{Step, applied, scanned, disturbed, Run, done, next}

insert_row-IsConsistent :
    (folder path raw : Text) (db db' : Db)
    → IsConsistent db
    → insert_row folder path raw db ≡ ok db'
    → IsConsistent db'
unfolding insert_row
insert_row-IsConsistent folder path raw db db' k h =
    elim (Option-cases (Dict.lookup (folder, path) db.rows)) [
      | inl fresh ↦
          let (usage, p, q) =
            bind-eq-ok (entries_insert folder (length raw) db.usage) _
              (rw (fresh, insert_row) at h) in
          subst IsConsistent (ok-injective q) (new_row-IsConsistent folder path raw db k fresh p)
      | inr (old, found) ↦ let no = rw (found, insert_row) at h in cc
    ]

insert_entries-IsConsistent :
    (c : Codec) (folder : Text) (es : List Entry) (db db' : Db)
    → IsConsistent db
    → insert_entries c folder es db ≡ ok db'
    → IsConsistent db'
unfolding insert_entries
insert_entries-IsConsistent c folder [] db db' k h = subst IsConsistent (ok-injective h) k
insert_entries-IsConsistent c folder (e ∷ es) db db' k h =
    let (next_db, first, rest) = bind-eq-ok (insert_row folder e.path (c.marshal e) db) _ h in
    insert_entries-IsConsistent c folder es next_db db'
      (insert_row-IsConsistent folder e.path (c.marshal e) db next_db k first) rest

replace_folder-IsConsistent :
    (c : Codec) (folder : Text) (es : List Entry) (db db' : Db)
    → IsConsistent db
    → replace_folder c folder es db ≡ ok db'
    → IsConsistent db'
unfolding replace_folder
replace_folder-IsConsistent c folder es db db' k h =
    let (usage', deleted, cleared) =
      delete_rows_lem folder db.rows db.usage (k.entries folder) (k.bytes folder)
        (k.entries_le folder) (k.bytes_le folder) in
    insert_entries-IsConsistent c folder es _ db'
      (without-IsConsistent c folder db usage' k cleared) (rw deleted at h)

after :
    {A : Type 0} (F : A → Db → Type 0) (d : Db) (r : Result Error A) (w : World)
    → IsConsistent d
    → ((a : A) → F a w.db → IsConsistent w.db)
    → Post (λ a u. F a u.db) (λ u. u.db ≡ d) (r, w)
    → IsConsistent w.db
after F d (ok a) w k f p = f a p
after F d (err e) w k f p = subst IsConsistent (sym p) k

step-IsConsistent : (c : Codec) (w u : World) → Step c w u → IsConsistent w.db → IsConsistent u.db
unfolding Index.put
step-IsConsistent c _ _ (applied nonce fetch folder root e w) k =
    let (r, u) = apply c nonce fetch folder root e w in
    after (λ _ db. Index.put c folder e w.db ≡ ok db) w.db r u k
      (λ _ h. upsert-IsConsistent folder e.path (c.marshal e) w.db k h)
      (apply-Recorded c nonce fetch folder root e w)
step-IsConsistent c _ _ (scanned folder root w) k =
    let (r, u) = scan c folder root w in
    after (λ es db. replace_folder c folder es w.db ≡ ok db) w.db r u k
      (λ es h. replace_folder-IsConsistent c folder es w.db u.db k h)
      (scan_all_or_nothing c folder root w)
step-IsConsistent c _ _ (disturbed disk events w) k = k

-- In every run of `Apply` and `Scan`, whatever other processes do to the disk and whichever calls fail,
-- the totals of an index that was consistent equal what its rows hold and are within the limits.
pub run-IsConsistent : (c : Codec) (w v : World) → Run c w v → IsConsistent w.db → IsConsistent v.db
run-IsConsistent c _ _ (done w) k = k
run-IsConsistent c w v (next {u = u} step rest) k =
    run-IsConsistent c u v rest (step-IsConsistent c w u step k)
