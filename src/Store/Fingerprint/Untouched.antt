-- ===== src/Store/Fingerprint/Untouched.antt =====
-- A fingerprint leaves the index as it is, whatever other processes do to the disk.
use backuply.Base.{ℕ, zero, suc}
use backuply.Text.{Text}
use backuply.Store.Codec.{Codec}
use backuply.Store.Index.{Db}
use backuply.Store.Disk.{Volume, Handle}
use backuply.Store.Exec.Keeps.{Keeps, Keeps-pure, Keeps-if, Keeps-bind}
use backuply.Store.Folder.Untouched.{At, db_reads, At-step, At-read_at, At-check_components}
use backuply.Store.Fingerprint.{Reading, read_blocks, fingerprint}

module _ (c : Codec) {d : Db} where
  At-read_blocks :
      (k : ℕ) (f : Handle) (size offset : ℕ) (acc : Reading)
      → Keeps (At d) (read_blocks c k f size offset acc)
  unfolding read_blocks
  At-read_blocks zero f size offset acc = Keeps-pure acc
  At-read_blocks (suc k) f size offset acc =
      Keeps-if _ _ _
        (Keeps-bind At-step
          (λ _. Keeps-bind (At-read_at f _ offset) (λ buf. At-read_blocks k f size _ _)))
        (Keeps-pure acc)

  pub At-fingerprint : (v : Volume) (name : Text) → Keeps (At d) (fingerprint c v name)
  unfolding fingerprint
  At-fingerprint v name = search (db_reads, At-check_components, At-read_blocks) depth 16
