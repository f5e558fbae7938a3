-- ===== src/Store/Root/Reads.antt =====
-- The calls of os.Root and os.File that only read leave a quiet disk as it was.
use backuply.Base.{ℕ, Option, none, some}
use backuply.Text.{Text}
use backuply.Store.Disk.{Disk, Volume, FilePath, Handle}
use backuply.Store.Exec.Keeps.{Keeps, On, keeps_rules}
use backuply.Store.Root.{found, open_root, lstat, open_file, stat, read_at}

module _ {D : Disk → Type 0} where
  Keeps-found : {A : Type 0} (o : Option A) → Keeps (On D) (found o)
  unfolding found
  Keeps-found none = search keeps_rules
  Keeps-found (some a) = search keeps_rules

  pub Keeps-open_root : (root : Text) → Keeps (On D) (open_root root)
  unfolding open_root
  Keeps-open_root root = search (keeps_rules, Keeps-found)

  pub Keeps-lstat : (v : Volume) (p : FilePath) → Keeps (On D) (lstat v p)
  unfolding lstat
  Keeps-lstat v p = search (keeps_rules, Keeps-found)

  pub Keeps-open_file : (v : Volume) (p : FilePath) → Keeps (On D) (open_file v p)
  unfolding open_file
  Keeps-open_file v p = search (keeps_rules, Keeps-found) depth 8

  pub Keeps-stat : (h : Handle) → Keeps (On D) (stat h)
  unfolding stat
  Keeps-stat h = search keeps_rules

  pub Keeps-read_at : (h : Handle) (n offset : ℕ) → Keeps (On D) (read_at h n offset)
  unfolding read_at
  Keeps-read_at h n offset = search keeps_rules depth 8

pub ruleset reads =
    (keeps_rules, Keeps-open_root, Keeps-lstat, Keeps-open_file, Keeps-stat, Keeps-read_at)
