-- ===== src/Store/Apply/Recorded.antt =====
-- What `Apply` does to the index, whatever other processes do to the disk meanwhile.
use backuply.Base.{◌≡◌, refl, sym, ap, true, Option, none, some, text_eq, ◌==◌}
use backuply.Base.Result.{Result, ok, err}
use backuply.Text.{Text}
use backuply.Text.Split.{split}
use backuply.Model.{Entry, Stats, directory, no_stats, blocks_eq}
use backuply.Store.Error.{Error, local_change}
use backuply.Store.Codec.{Codec}
use backuply.Store.Path.{slash}
use backuply.Store.Index
use backuply.Store.Index.{Db}
use backuply.Store.Disk.{Volume, FilePath, Node}
use backuply.Store.Exec.{World, Exec, pure, fail, ◌>>◌, change_db}
use backuply.Store.Exec.Keeps.{
  Triple, Post, Keeps-lift, Keeps-gets, Triple-bind, Triple-gets, Triple-pure, Triple-if,
  Triple-finally, Triple-require,
}
use backuply.Store.Folder.{parent, is_regular}
use backuply.Store.Folder.Untouched.{
  At, At-step, At-open_file, At-open_folder, At-check_folder, At-check_marker, At-check_components,
}
use backuply.Store.Fingerprint.Untouched.{At-fingerprint}
use backuply.Store.Root.Untouched.{Keeps-db, At-create, At-chmod, At-remove, At-rename}
use backuply.Store.Apply.Untouched.{
  At-sync_dir, At-ensure_parents, At-lstat?, At-not_deleted, At-not_edited, At-make_directory,
  At-known_directory, At-recheck, At-write_blocks,
}
use backuply.Store.Apply.{
  Fetch, Previous, absent, older, store_db, put, is_dir_node, apply_directory, reuse_in_place,
  publish, install, apply_file, apply, Progress,
}

module _ (c : Codec) (folder : Text) (e : Entry) (d : Db) where
  -- The index has the entry in its row, by a statement that succeeded.
  Recorded : Db → Type 0
  Recorded db = Index.put c folder e d ≡ ok db

  abbrev Records : Exec Stats → Type 0
  Records m = Triple (At d) m (λ _ w. Recorded w.db) (At d)

  Triple-store_db :
      (r : Result Error Db)
      → Triple
          (λ w. At d w × (Index.put c folder e d ≡ r))
          (store_db r)
          (λ _ w. Recorded w.db)
          (At d)
  unfolding store_db change_db fail Recorded
  Triple-store_db (ok db) = record { run = λ w h. h.1 }
  Triple-store_db (err x) = record { run = λ w h. h.0 }

  then_put : (stats : Stats) → Records (do put c folder e; pure stats)
  unfolding put
  then_put stats =
      Triple-bind
        (Triple-bind At-step (λ _.
          Triple-bind (Triple-gets _ (λ w h. (h, ap (Index.put c folder e) (sym h))))
            Triple-store_db))
        (λ _. Triple-pure stats (λ w h. h))

  Records-publish :
      (root : Text) (v : Volume) (parts tmp : FilePath) (prev : Previous) (done : Progress)
      → Records (publish c folder root e v parts tmp prev done)
  unfolding publish
  Records-publish root v parts tmp prev done =
      Triple-require _ _ _
        (λ _. Triple-bind (At-chmod v tmp e.mode) (λ _. Triple-bind At-step (λ _.
          Triple-bind At-step (λ _. Triple-bind (At-check_folder root folder) (λ _.
            Triple-bind (At-check_marker v folder) (λ _.
              Triple-bind (At-check_components v e.path true) (λ _.
                Triple-bind (At-recheck c e v parts prev) (λ _. Triple-bind At-step (λ _.
                  Triple-bind (At-rename v tmp parts)
                    (λ _. Triple-bind (At-sync_dir v (parent parts)) (λ _. then_put _)))))))))))
        (λ w h. h)

  Records-install :
      (nonce : Text) (fetch : Fetch) (root : Text) (v : Volume) (parts : FilePath) (prev : Previous)
      → Records (install c nonce fetch folder root e v parts prev)
  unfolding install
  Records-install nonce fetch root v parts prev = Triple-bind (At-ensure_parents v parts) (λ _.
      Triple-bind At-step (λ _. Triple-bind (At-create v _ 0o600) (λ _.
        Triple-finally
          (Triple-bind (At-write_blocks c fetch v _ prev e.blocks _)
            (λ done. Records-publish root v parts _ prev done))
          (λ _. Keeps-db Recorded (λ d'. At-remove v _)) (At-remove v _))))

  Records-apply_directory :
      (v : Volume) (parts : FilePath) (info : Option Node)
      → Records (apply_directory c folder e v parts info)
  unfolding apply_directory
  Records-apply_directory v parts info = Triple-bind (At-known_directory c folder e info) (λ _.
      Triple-require (is_dir_node info) local_change _
        (λ _.
          Triple-bind (At-ensure_parents v parts)
            (λ _. Triple-bind (At-make_directory c v parts e.mode info) (λ _. then_put no_stats)))
        (λ w h. h))

  Records-reuse_in_place :
      (v : Volume) (parts : FilePath) (current : Entry)
      → Records (reuse_in_place c folder e v parts current)
  unfolding reuse_in_place
  Records-reuse_in_place v parts current =
      Triple-require _ _ _
        (λ _.
          Triple-bind (At-open_file v parts) (λ f.
            Triple-bind (At-chmod v parts e.mode) (λ _. Triple-bind At-step (λ _. then_put _))))
        (λ w h. h)

  Records-apply_file :
      (nonce : Text) (fetch : Fetch) (root : Text) (v : Volume) (parts : FilePath)
      (info : Option Node)
      → Records (apply_file c nonce fetch folder root e v parts info)
  unfolding apply_file
  Records-apply_file nonce fetch root v parts none =
      Triple-bind (At-not_deleted c folder e.path)
        (λ _. Records-install nonce fetch root v parts absent)
  Records-apply_file nonce fetch root v parts (some info) =
      Triple-require (is_regular info.kind) _ _
        (λ _. Triple-bind (At-fingerprint c v e.path) (λ current.
          Triple-if (current.hash == e.hash) _ _ (λ _. Records-reuse_in_place v parts current)
            (λ _. Triple-bind (At-not_edited c folder e.path current) (λ _.
              Triple-bind (At-open_file v parts)
                (λ old. Records-install nonce fetch root v parts (older old current))))))
        (λ w h. h)

  Records-apply :
      (nonce : Text) (fetch : Fetch) (root : Text) → Records (apply c nonce fetch folder root e)
  unfolding apply
  Records-apply nonce fetch root = Triple-bind (Keeps-lift _) (λ _. Triple-bind At-step (λ _.
      Triple-bind At-step (λ _. Triple-bind (Keeps-gets _) (λ r. Triple-bind (Keeps-lift r) (λ _.
        Triple-bind (At-open_folder root folder) (λ v.
          Triple-bind (At-check_components v e.path true) (λ _. Triple-bind (At-lstat? v _) (λ info.
            Triple-if (e.kind == directory) _ _
              (λ _. Records-apply_directory v (split slash e.path) info)
              (λ _. Records-apply_file nonce fetch root v (split slash e.path) info)))))))))

-- `Apply` of a file or a directory, whatever other processes do to the disk meanwhile: if it returns, the
-- index is what `put` of the entry makes of it; if it fails, the index is as it was.
pub apply-Recorded :
    (c : Codec) (nonce : Text) (fetch : Fetch) (folder root : Text) (e : Entry) (w : World)
    → Post
        (λ _ w'. Index.put c folder e w.db ≡ ok w'.db)
        (λ w'. w'.db ≡ w.db)
        (apply c nonce fetch folder root e w)
unfolding Recorded
apply-Recorded c nonce fetch folder root e w =
    (Records-apply c folder e w.db nonce fetch root).run w refl
