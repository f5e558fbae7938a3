-- ===== src/Store/Apply/Reads.antt =====
-- The parts of `Apply` that only read, or only write to the index, leave a quiet disk as it was.
use backuply.Base.{Option, none, some}
use backuply.Base.Result.{Result, ok, err}
use backuply.Text.{Text}
use backuply.Model.{Block, Entry}
use backuply.Store.Error.{Error, not_exist, no_rows}
use backuply.Store.Codec.{Codec}
use backuply.Store.Index.{Db}
use backuply.Store.Disk.{Disk, Volume, FilePath, Handle, Node}
use backuply.Store.Exec.Keeps.{Keeps, On}
use backuply.Store.Folder.Reads.{folder_reads}
use backuply.Store.Fingerprint.Reads.{Keeps-fingerprint}
use backuply.Store.Apply.{
  Fetch, Previous, absent, older, or_missing, lstat?, no_row, same_row, store_db, get, put,
  not_deleted, not_edited, fetch_block, reuse_block, still_absent, recheck,
}

module _ {D : Disk → Type 0} where
  Keeps-or_missing : (r : Result Error Node) → Keeps (On D) (or_missing r)
  unfolding or_missing
  Keeps-or_missing (ok n) = search folder_reads
  Keeps-or_missing (err not_exist) = search folder_reads
  Keeps-or_missing (err e) = search folder_reads

  pub Keeps-lstat? : (v : Volume) (p : FilePath) → Keeps (On D) (lstat? v p)
  unfolding lstat?
  Keeps-lstat? v p = search (folder_reads, Keeps-or_missing)

  Keeps-no_row : (r : Result Error Entry) → Keeps (On D) (no_row r)
  unfolding no_row
  Keeps-no_row (ok e) = search folder_reads
  Keeps-no_row (err no_rows) = search folder_reads
  Keeps-no_row (err e) = search folder_reads

  Keeps-same_row : (current : Entry) (r : Result Error Entry) → Keeps (On D) (same_row current r)
  unfolding same_row
  Keeps-same_row current (ok e) = search folder_reads
  Keeps-same_row current (err no_rows) = search folder_reads
  Keeps-same_row current (err e) = search folder_reads

  Keeps-store_db : (r : Result Error Db) → Keeps (On D) (store_db r)
  unfolding store_db
  Keeps-store_db (ok db) = search folder_reads
  Keeps-store_db (err e) = search folder_reads

  Keeps-still_absent : (r : Result Error Node) → Keeps (On D) (still_absent r)
  unfolding still_absent
  Keeps-still_absent (ok n) = search folder_reads
  Keeps-still_absent (err not_exist) = search folder_reads
  Keeps-still_absent (err e) = search folder_reads

module _ (c : Codec) {D : Disk → Type 0} where
  pub Keeps-get : (folder path : Text) → Keeps (On D) (get c folder path)
  unfolding get
  Keeps-get folder path = search folder_reads

  pub Keeps-put : (folder : Text) (e : Entry) → Keeps (On D) (put c folder e)
  unfolding put
  Keeps-put folder e = search (folder_reads, Keeps-store_db)

  pub Keeps-not_deleted : (folder path : Text) → Keeps (On D) (not_deleted c folder path)
  unfolding not_deleted
  Keeps-not_deleted folder path = search (folder_reads, Keeps-get, Keeps-no_row)

  pub Keeps-not_edited :
      (folder path : Text) (current : Entry) → Keeps (On D) (not_edited c folder path current)
  unfolding not_edited
  Keeps-not_edited folder path current = search (folder_reads, Keeps-get, Keeps-same_row)

  pub Keeps-fetch_block : (fetch : Fetch) (b : Block) → Keeps (On D) (fetch_block c fetch b)
  unfolding fetch_block
  Keeps-fetch_block none b = search folder_reads
  Keeps-fetch_block (some fetch) b = search folder_reads depth 8

  pub Keeps-reuse_block :
      (b : Block) (known : Option (Handle × Block)) → Keeps (On D) (reuse_block c b known)
  unfolding reuse_block
  Keeps-reuse_block b none = search folder_reads
  Keeps-reuse_block b (some (old, known)) = search folder_reads

  pub Keeps-recheck :
      (e : Entry) (v : Volume) (parts : FilePath) (prev : Previous)
      → Keeps (On D) (recheck c e v parts prev)
  unfolding recheck
  Keeps-recheck e v parts absent = search (folder_reads, Keeps-still_absent)
  Keeps-recheck e v parts (older old current) = search (folder_reads, Keeps-fingerprint)
