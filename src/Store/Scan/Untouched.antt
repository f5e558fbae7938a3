-- ===== src/Store/Scan/Untouched.antt =====
-- What `Scan` does to the index, whatever other processes do to the disk meanwhile.
use backuply.Base.{ℕ, zero, suc, ◌≡◌, refl, sym, ap, Option, none, some, List, [], ◌∷◌, ◌++◌}
use backuply.Base.Result.{Result, ok, err}
use backuply.Text.{Text}
use backuply.Model.{Entry}
use backuply.Store.Error.{Error}
use backuply.Store.Codec.{Codec}
use backuply.Store.Index.{Db, replace_folder}
use backuply.Store.Disk.{Volume, FilePath, FileKind, regular, dir, Node}
use backuply.Store.Exec.{World, Exec, pure, fail, gets, ◌>>=◌, ◌>>◌, step, change_db}
use backuply.Store.Exec.Keeps.{
  Keeps, Triple, Post, Keeps-pure, Keeps-fail, Keeps-bind, Triple-bind, Triple-gets, Triple-pure,
}
use backuply.Store.Scan.{
  Listed, Walked, read_dir, scan_entry, visit_name, visit, enter, walk_all, walk, store_db, scan,
  max_depth,
}
use backuply.Store.Fingerprint.Untouched.{At-fingerprint}
use backuply.Store.Folder.Untouched.{
  At, db_rules, db_reads, At-check_components, At-check_folder, At-check_marker, At-open_folder,
  At-step,
}

module _ (c : Codec) {d : Db} where
  At-scan_entry :
      (v : Volume) (name : Text) (info : Node) (kind : FileKind)
      → Keeps (At d) (scan_entry c v name info kind)
  unfolding scan_entry
  At-scan_entry v name info dir = Keeps-pure _
  At-scan_entry v name info regular = At-fingerprint c v name
  At-scan_entry v name info _ = Keeps-fail _

  At-visit : (v : Volume) (parts : FilePath) (acc : Walked) → Keeps (At d) (visit c v parts acc)
  unfolding visit visit_name
  At-visit v parts acc = search (db_reads, At-check_components, At-scan_entry) depth 16

  At-enter :
      (kind : FileKind) (acc : Walked) (deeper : Walked → Exec Walked) (r : Option Walked)
      → ((a : Walked) → Keeps (At d) (deeper a))
      → Keeps (At d) (enter c kind acc deeper r)
  unfolding enter
  At-enter kind acc deeper none h = Keeps-pure acc
  At-enter dir acc deeper (some a) h = h a
  At-enter _ acc deeper (some a) h = Keeps-pure a

  At-walk_all :
      (one : Listed → Walked → Exec Walked) (xs : List Listed) (acc : Walked)
      → ((x : Listed) (a : Walked) → Keeps (At d) (one x a))
      → Keeps (At d) (walk_all c one xs acc)
  unfolding walk_all
  At-walk_all one [] acc h = Keeps-pure acc
  At-walk_all one (x ∷ xs) acc h = Keeps-bind (h x acc) (λ a. At-walk_all one xs a h)

  At-read_dir : (v : Volume) (p : FilePath) → Keeps (At d) (read_dir v p)
  unfolding read_dir
  At-read_dir v p = search db_rules

  At-walk :
      (k : ℕ) (v : Volume) (parts : FilePath) (kind : FileKind) (acc : Walked)
      → Keeps (At d) (walk c k v parts kind acc)
  unfolding walk
  At-walk zero v parts kind acc =
      Keeps-bind (At-visit v parts acc) (λ r. At-enter kind acc _ r (λ a. Keeps-fail _))
  At-walk (suc k) v parts kind acc = Keeps-bind (At-visit v parts acc) (λ r.
      At-enter kind acc _ r (λ a.
        Keeps-bind (At-read_dir v parts)
          (λ names. At-walk_all _ names a (λ x a'. At-walk k v (parts ++ x.0 ∷ []) x.1 a'))))

module _ (c : Codec) (folder : Text) (d : Db) (es : List Entry) where
  Stored : World → Type 0
  Stored w = replace_folder c folder es d ≡ ok w.db

  Triple-store_db :
      (r : Result Error Db)
      → Triple
          (λ w. At d w × (replace_folder c folder es d ≡ r))
          (store_db c r)
          (λ _. Stored)
          (At d)
  unfolding store_db change_db fail Stored
  Triple-store_db (ok db) = record { run = λ w h. h.1 }
  Triple-store_db (err e) = record { run = λ w h. h.0 }

  Triple-commit :
      Triple
        (At d)
        (do step; db ← gets (λ w. replace_folder c folder es w.db); store_db c db; pure es)
        (λ es' w. replace_folder c folder es' d ≡ ok w.db)
        (At d)
  unfolding Stored
  Triple-commit = Triple-bind At-step (λ _.
      Triple-bind (Triple-gets _ (λ w h. (h, ap (replace_folder c folder es) (sym h))))
        (λ r. Triple-bind (Triple-store_db r) (λ _. Triple-pure es (λ w h. h))))

Triple-scan :
    (c : Codec) (folder root : Text) (d : Db)
    → Triple (At d) (scan c folder root) (λ es w. replace_folder c folder es d ≡ ok w.db) (At d)
unfolding scan
Triple-scan c folder root d = Triple-bind (At-open_folder root folder) (λ v.
    Triple-bind At-step (λ _. Triple-bind (At-read_dir c v []) (λ names.
      Triple-bind (At-walk_all c _ names _ (λ x a. At-walk c max_depth v (x.0 ∷ []) x.1 a))
        (λ walked. Triple-bind (At-check_folder root folder) (λ _.
          Triple-bind (At-check_marker v folder) (λ _. Triple-commit c folder d walked.entries))))))

-- `Scan`, whatever other processes do to the disk meanwhile: if it returns, its transaction has
-- replaced the folder in the index by the entries that it returns; if it fails, the index is as it was.
pub scan_all_or_nothing :
    (c : Codec) (folder root : Text) (w : World)
    → Post
        (λ es w'. replace_folder c folder es w.db ≡ ok w'.db)
        (λ w'. w'.db ≡ w.db)
        (scan c folder root w)
scan_all_or_nothing c folder root w = (Triple-scan c folder root w.db).run w refl
