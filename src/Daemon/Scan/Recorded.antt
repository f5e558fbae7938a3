-- ===== src/Daemon/Scan/Recorded.antt =====
-- What a scan of one folder leaves in the index and in the folder's status.
use backuply.Base.{
  ℕ, ◌≡◌, ◌⊎◌, inl, inr, refl, ap, ◌∙◌, arith, Option, some, List, [], length, text_eq, ==_iff,
}
use backuply.Base.Dict
use backuply.Base.Dict.{lookup-insert}
use backuply.Base.Result.{Result, ok, err}
use backuply.Base.Action.{try, change, ◌>>=◌}
use backuply.Text.{Text}
use backuply.Model.{Entry, int64, add_int64}
use backuply.Config.{Folder}
use backuply.Store.Error.{Error as StoreError}
use backuply.Store.Codec.{Codec}
use backuply.Store.Index.{Db, replace_folder}
use backuply.Store.Exec.{World}
use backuply.Store.Exec.Keeps.{Post}
use backuply.Store.Scan.{scan as store_scan}
use backuply.Store.Scan.Untouched.{scan_all_or_nothing}
use backuply.Daemon.Status.{FolderStatus, Statuses, status_or_zero, Update, updated, update}
use backuply.Daemon.Access.{in_store, Shared, from_store, call}
use backuply.Daemon.Scan.{scan_update, scan_folder, set_status, message_of}

lookup-update :
    (u : Update) (s : Statuses)
    → Dict.lookup u.folder (update u s)
      ≡ some (updated u u.error (status_or_zero (Dict.lookup u.folder s)))
unfolding update
lookup-update u s =
    lookup-insert u.folder u.folder _ s ∙ rw ((==_iff u.folder u.folder).1 refl) refl

-- A scan transfers nothing.
no_bytes :
    (old : FolderStatus)
    → record old {
      bytes_received = add_int64 old.bytes_received 0;
      bytes_reused = add_int64 old.bytes_reused 0;
    }
      ≡ record old {
        bytes_received = int64 old.bytes_received;
        bytes_reused = int64 old.bytes_reused;
      }
no_bytes old =
    let p : add_int64 old.bytes_received 0 ≡ int64 old.bytes_received = omega arith in
    let q : add_int64 old.bytes_reused 0 ≡ int64 old.bytes_reused = omega arith in
    λ i. record old { bytes_received = p i; bytes_reused = q i }

module _ (c : Codec) (text : StoreError → Text) (now : Text → ℕ) where
  -- The scan succeeded or failed, and both the index and the status show it.
  abbrev pub Recorded : Text → Db → FolderStatus → Db → Option FolderStatus → Type 0
  Recorded id db old db' new =
      ((es : List Entry) × (replace_folder c id es db ≡ ok db')
        × (new
            ≡ some (record old {
              entries = length es;
              last_success = some (now id);
              last_error = [];
              bytes_received = int64 old.bytes_received;
              bytes_reused = int64 old.bytes_reused;
            })))
      ⊎ ((e : StoreError) × (db' ≡ db) × (new ≡ some (record old { last_error = text e })))

  update-Recorded :
      (id : Text) (s : Statuses) (db : Db) (r : Result StoreError (List Entry)) (w : World)
      → Post (λ es w'. replace_folder c id es db ≡ ok w'.db) (λ w'. w'.db ≡ db) (r, w)
      → Recorded id db
          (status_or_zero (Dict.lookup id s))
          w.db
          (Dict.lookup id (update (scan_update c text now id (from_store r)) s))
  unfolding from_store scan_update message_of updated
  update-Recorded id s db (ok es) w p = inl (
    es,
    p,
    lookup-update (scan_update c text now id (ok es)) s
        ∙ ap some (
            no_bytes (record (status_or_zero (Dict.lookup id s)) {
              entries = length es;
              last_success = some (now id);
              last_error = [];
            })),
  )
  update-Recorded id s db (err e) w p =
      inr (e, p, lookup-update (scan_update c text now id (err (in_store e))) s)

  -- A scan of one folder, whatever other processes do meanwhile, either replaces the folder in the index
  -- and makes the status a success with as many entries, whose bytes stay the `int64` that they were, or leaves the index as it was and puts the
  -- message of its error into the status, whose other fields stay.
  pub scan_folder-Recorded :
      (id : Text) (f : Folder) (w : Shared)
      → Recorded id w.world.db
          (status_or_zero (Dict.lookup id w.statuses))
          (scan_folder c text now id f w).1.world.db
          (Dict.lookup id (scan_folder c text now id f w).1.statuses)
  unfolding scan_folder set_status call try change ◌>>=◌
  scan_folder-Recorded id f w =
      update-Recorded id w.statuses w.world.db (store_scan c id f.path w.world).0
        (store_scan c id f.path w.world).1 (scan_all_or_nothing c id f.path w.world)
