-- ===== src/Store/Apply/Untouched.antt =====
-- The stages of `Apply` before its last statement leave the index as it is, whatever other processes do
-- to the disk.
use backuply.Base.{ℕ, Option, none, some, List, [], ◌∷◌, text_eq}
use backuply.Base.Result.{Result, ok, err}
use backuply.Text.{Text}
use backuply.Model.{Block, Entry}
use backuply.Store.Error.{Error, no_rows, not_exist}
use backuply.Store.Codec.{Codec}
use backuply.Store.Index.{Db}
use backuply.Store.Disk.{Volume, FilePath, Node, Handle}
use backuply.Store.Exec.Keeps.{Keeps, Keeps-pure, Keeps-fail, Keeps-bind}
use backuply.Store.Folder.{sync_dir, parent, ensure_parents, ensure_directory}
use backuply.Store.Folder.Untouched.{At, At-step, db_rules, db_reads, At-check_components}
use backuply.Store.Fingerprint.Untouched.{At-fingerprint}
use backuply.Store.Root.Untouched.{At-mkdir_all, At-mkdir, At-append_file}
use backuply.Store.Apply.{
  Fetch, Previous, absent, older, or_missing, lstat?, no_row, same_row, still_absent, get,
  not_deleted, not_edited, make_directory, known_directory, fetch_block, reuse, reuse_block,
  or_fetch, write_blocks, recheck, Progress,
}

module _ {d : Db} where
  pub At-sync_dir : (v : Volume) (p : FilePath) → Keeps (At d) (sync_dir v p)
  unfolding sync_dir
  At-sync_dir v p = search db_reads depth 8

  At-ensure_directory : (v : Volume) (p : FilePath) → Keeps (At d) (ensure_directory v p)
  unfolding ensure_directory
  At-ensure_directory v [] = Keeps-pure _
  At-ensure_directory v (part ∷ more) = search (db_rules, At-check_components, At-mkdir_all) depth 8

  pub At-ensure_parents : (v : Volume) (p : FilePath) → Keeps (At d) (ensure_parents v p)
  unfolding ensure_parents
  At-ensure_parents v p = At-ensure_directory v (parent p)

  At-or_missing : (r : Result Error Node) → Keeps (At d) (or_missing r)
  unfolding or_missing
  At-or_missing (ok n) = Keeps-pure _
  At-or_missing (err not_exist) = Keeps-pure _
  At-or_missing (err e) = Keeps-fail e

  pub At-lstat? : (v : Volume) (p : FilePath) → Keeps (At d) (lstat? v p)
  unfolding lstat?
  At-lstat? v p = search (db_reads, At-or_missing) depth 8

  At-no_row : (r : Result Error Entry) → Keeps (At d) (no_row r)
  unfolding no_row
  At-no_row (ok e) = Keeps-fail _
  At-no_row (err no_rows) = Keeps-pure _
  At-no_row (err e) = Keeps-fail e

  At-same_row : (current : Entry) (r : Result Error Entry) → Keeps (At d) (same_row current r)
  unfolding same_row
  At-same_row current (ok e) = search db_rules
  At-same_row current (err no_rows) = Keeps-fail _
  At-same_row current (err e) = Keeps-fail e

  At-still_absent : (r : Result Error Node) → Keeps (At d) (still_absent r)
  unfolding still_absent
  At-still_absent (ok n) = Keeps-fail _
  At-still_absent (err not_exist) = Keeps-pure _
  At-still_absent (err e) = Keeps-fail e

module _ (c : Codec) {d : Db} where
  At-get : (folder path : Text) → Keeps (At d) (get c folder path)
  unfolding get
  At-get folder path = search db_rules depth 8

  pub At-not_deleted : (folder path : Text) → Keeps (At d) (not_deleted c folder path)
  unfolding not_deleted
  At-not_deleted folder path = search (db_rules, At-get, At-no_row) depth 8

  pub At-not_edited : (folder path : Text) (e : Entry) → Keeps (At d) (not_edited c folder path e)
  unfolding not_edited
  At-not_edited folder path e = search (db_rules, At-get, At-same_row) depth 8

  pub At-make_directory :
      (v : Volume) (p : FilePath) (mode : ℕ) (o : Option Node)
      → Keeps (At d) (make_directory v p mode o)
  unfolding make_directory
  At-make_directory v p mode (some n) = Keeps-pure _
  At-make_directory v p mode none = search (db_rules, At-mkdir, At-sync_dir) depth 8

  pub At-known_directory :
      (folder : Text) (e : Entry) (o : Option Node) → Keeps (At d) (known_directory c folder e o)
  unfolding known_directory
  At-known_directory folder e none = At-not_deleted folder e.path
  At-known_directory folder e (some n) = Keeps-pure _

  pub At-recheck :
      (e : Entry) (v : Volume) (p : FilePath) (prev : Previous)
      → Keeps (At d) (recheck c e v p prev)
  unfolding recheck
  At-recheck e v p (older old current) = search (db_rules, At-fingerprint) depth 8
  At-recheck e v p absent = search (db_reads, At-still_absent) depth 8

  At-fetch_block : (fetch : Fetch) (b : Block) → Keeps (At d) (fetch_block c fetch b)
  unfolding fetch_block
  At-fetch_block none b = Keeps-fail _
  At-fetch_block (some fetch) b = search db_rules depth 12

  At-reuse_block : (b : Block) (o : Option (Handle × Block)) → Keeps (At d) (reuse_block c b o)
  unfolding reuse_block
  At-reuse_block b none = Keeps-pure _
  At-reuse_block b (some (old, known)) = search db_reads depth 8

  At-or_fetch : (fetch : Fetch) (b : Block) (o : Option Text) → Keeps (At d) (or_fetch c fetch b o)
  unfolding or_fetch
  At-or_fetch fetch b (some x) = Keeps-pure _
  At-or_fetch fetch b none = search (db_rules, At-fetch_block) depth 8

  pub At-write_blocks :
      (fetch : Fetch) (v : Volume) (tmp : FilePath) (prev : Previous) (bs : List Block)
      (acc : Progress)
      → Keeps (At d) (write_blocks c fetch v tmp prev bs acc)
  unfolding write_blocks
  At-write_blocks fetch v tmp prev [] acc = Keeps-pure acc
  At-write_blocks fetch v tmp prev (b ∷ bs) acc = Keeps-bind At-step (λ _.
      Keeps-bind (At-reuse_block b (reuse prev b)) (λ known.
        Keeps-bind (At-or_fetch fetch b known) (λ got.
          Keeps-bind (At-append_file v tmp _) (λ _. At-write_blocks fetch v tmp prev bs _))))
