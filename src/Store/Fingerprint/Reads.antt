-- ===== src/Store/Fingerprint/Reads.antt =====
-- `fingerprint` leaves a quiet disk as it was.
use backuply.Base.{ℕ, zero, suc, ltb}
use backuply.Text.{Text}
use backuply.Store.Codec.{Codec}
use backuply.Store.Disk.{Disk, Volume, Handle}
use backuply.Store.Exec.Keeps.{Keeps, On, Keeps-bind, Keeps-if, Keeps-step, Keeps-pure}
use backuply.Store.Root.Reads.{reads, Keeps-read_at}
use backuply.Store.Folder.Reads.{folder_reads}
use backuply.Store.Fingerprint.{Reading, read_blocks, fingerprint}

module _ (c : Codec) {D : Disk → Type 0} where
  pub Keeps-read_blocks :
      (k : ℕ) (f : Handle) (size offset : ℕ) (acc : Reading)
      → Keeps (On D) (read_blocks c k f size offset acc)
  unfolding read_blocks
  Keeps-read_blocks zero f size offset acc = search reads
  Keeps-read_blocks (suc k) f size offset acc =
      Keeps-if (ltb offset size) _ _
        (Keeps-bind Keeps-step
          (λ _. Keeps-bind (Keeps-read_at f _ offset) (λ buf. Keeps-read_blocks k f size _ _)))
        (Keeps-pure acc)

  pub Keeps-fingerprint : (v : Volume) (name : Text) → Keeps (On D) (fingerprint c v name)
  unfolding fingerprint
  Keeps-fingerprint v name = search (folder_reads, Keeps-read_blocks) depth 16
