-- ===== src/Daemon/Scan.antt =====
-- `scan` and `sortedFolders` of internal/daemon/daemon.go. `text` gives the message of an error, and
-- `now` the time at which each folder is done.
pub mod Recorded
use backuply.Base.{
  ℕ, Bool, true, false, Option, none, some, List, [], ◌∷◌, length, text_eq, ◌==◌, if◌then◌else◌,
}
use backuply.Base.Dict
use backuply.Base.Dict.{Dict}
use backuply.Base.Result.{Result, ok, err}
use backuply.Base.Action.{pure, lift, try, change, ◌>>=◌, ◌>>◌}
use backuply.Text.{Text}
use backuply.Model.{Entry, no_stats}
use backuply.Config.{Config, Folder, local}
use backuply.Store.Error.{Error as StoreError}
use backuply.Store.Codec.{Codec}
use backuply.Store.Exec.{step}
use backuply.Store.Listing.{text_le}
use backuply.Store.Scan.{scan as store_scan}
use backuply.Daemon.Status.{Update, update}
use backuply.Daemon.Access.{Error, in_store, Shared, Act, call}

unfoldable pub insert_id : Text → List Text → List Text
insert_id id [] = id ∷ []
insert_id id (next ∷ ids) =
    let rest = insert_id id ids in if text_le id next then id ∷ next ∷ ids else next ∷ rest

-- The keys in order
unfoldable pub sorted_folders : Dict Text Folder → List Text
sorted_folders [] = []
sorted_folders ((id, f) ∷ folders) = insert_id id (sorted_folders folders)

unfoldable pub set_status : Update → Act (Unit {0})
set_status u = change (λ w. record w { statuses = update u w.statuses })

module _ (c : Codec) (text : StoreError → Text) (now : Text → ℕ) where
  unfoldable pub message_of : Error → Text
  message_of (in_store e) = text e
  message_of _ = []

  -- What `update` is told of a scan
  unfoldable pub scan_update : Text → Result Error (List Entry) → Update
  unfolding message_of
  scan_update id (ok es) = record {
    folder = id;
    count = length es;
    stats = no_stats;
    error = none;
    now = now id;
  }
  scan_update id (err e) = record {
    folder = id;
    count = 0;
    stats = no_stats;
    error = some (message_of e);
    now = now id;
  }

  unfoldable pub scan_folder : Text → Folder → Act (Unit {0})
  scan_folder id f = do r ← try (call (store_scan c id f.path)); set_status (scan_update id r)

  -- A folder of this device's own is scanned; then the loop ends if the context was cancelled.
  unfoldable pub scan_next : Text → Option Folder → Act (Unit {0}) → Act (Unit {0})
  scan_next id none rest = rest
  scan_next id (some f) rest =
      if f.source == local then (do scan_folder id f; call step; rest) else rest

  unfoldable pub scan_folders : Dict Text Folder → List Text → Act (Unit {0})
  unfolding scan_next
  scan_folders folders [] = pure tt
  scan_folders folders (id ∷ ids) = do
    let rest = scan_folders folders ids
    scan_next id (Dict.lookup id folders) rest

  unfoldable pub scan : Config → Act (Unit {0})
  scan cfg = scan_folders cfg.folders (sorted_folders cfg.folders)
