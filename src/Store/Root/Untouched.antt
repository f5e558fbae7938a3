-- ===== src/Store/Root/Untouched.antt =====
-- The calls that change the disk leave the index as it is, whatever other processes do to the disk.
use mathlib.Core.Path.{subst}
use backuply.Base.{ℕ, refl, sym, Option, none, some, [], ◌∷◌, ◌++◌}
use backuply.Text.{Text}
use backuply.Store.Index.{Db}
use backuply.Store.Disk.{Disk, Volume, FilePath, FileKind, Node}
use backuply.Store.Exec.{Exec, change_disk}
use backuply.Store.Exec.Keeps.{Keeps, Keeps-fail, Keeps-pure, Keeps-gets, Keeps-bind, Triple-conseq}
use backuply.Store.Folder.Untouched.{At, At-step, db_rules}
use backuply.Store.Root.{
  make_new, mkdir, make_dir, mkdir_all, create, append_file, chmod, remove, move_node, rename,
}

-- What leaves every index as it is keeps what is true of the index.
pub Keeps-db :
    {A : Type 0} {m : Exec A} (Q : Db → Type 0)
    → ((d : Db) → Keeps (At d) m)
    → Keeps (λ w. Q w.db) m
Keeps-db Q t = record {
  run = λ w h.
      (Triple-conseq (λ u k. k) (t w.db) (λ _ u k. subst Q (sym k) h)
          (λ u k. subst Q (sym k) h)).run
        w refl;
}

module _ {d : Db} where
  At-change_disk : (f : Disk → Disk) → Keeps (At d) (change_disk f)
  unfolding change_disk
  At-change_disk f = record { run = λ w h. h }

  At-make_new :
      (kind : FileKind) (mode : ℕ) (v : Volume) (p : FilePath) (o : Option Node)
      → Keeps (At d) (make_new kind mode v p o)
  unfolding make_new
  At-make_new kind mode v p none = At-change_disk _
  At-make_new kind mode v p (some _) = Keeps-fail _

  At-make_dir :
      (mode : ℕ) (v : Volume) (p : FilePath) (o : Option Node) → Keeps (At d) (make_dir mode v p o)
  unfolding make_dir
  At-make_dir mode v p none = At-change_disk _
  At-make_dir mode v p (some n) = search db_rules

  At-move_node :
      (v : Volume) (from to : FilePath) (o : Option Node) → Keeps (At d) (move_node v from to o)
  unfolding move_node
  At-move_node v from to none = Keeps-fail _
  At-move_node v from to (some n) = At-change_disk _

ruleset disk_rules = (db_rules, At-change_disk, At-make_new, At-make_dir, At-move_node)

module _ {d : Db} where
  pub At-mkdir : (v : Volume) (p : FilePath) (mode : ℕ) → Keeps (At d) (mkdir v p mode)
  unfolding mkdir
  At-mkdir v p mode = search disk_rules depth 8

  pub At-mkdir_all :
      (v : Volume) (mode : ℕ) (done parts : FilePath) → Keeps (At d) (mkdir_all v mode done parts)
  unfolding mkdir_all
  At-mkdir_all v mode done [] = Keeps-pure _
  At-mkdir_all v mode done (part ∷ parts) = Keeps-bind At-step (λ _. Keeps-bind (Keeps-gets _) (λ n.
      Keeps-bind (At-make_dir mode v _ n) (λ _. At-mkdir_all v mode (done ++ part ∷ []) parts)))

  pub At-create : (v : Volume) (p : FilePath) (mode : ℕ) → Keeps (At d) (create v p mode)
  unfolding create
  At-create v p mode = search disk_rules depth 8

  pub At-append_file : (v : Volume) (p : FilePath) (b : Text) → Keeps (At d) (append_file v p b)
  unfolding append_file
  At-append_file v p b = search disk_rules depth 8

  pub At-chmod : (v : Volume) (p : FilePath) (mode : ℕ) → Keeps (At d) (chmod v p mode)
  unfolding chmod
  At-chmod v p mode = search disk_rules depth 8

  pub At-remove : (v : Volume) (p : FilePath) → Keeps (At d) (remove v p)
  unfolding remove
  At-remove v p = search disk_rules depth 8

  pub At-rename : (v : Volume) (from to : FilePath) → Keeps (At d) (rename v from to)
  unfolding rename
  At-rename v from to = search disk_rules depth 8

pub ruleset disk_calls =
    (At-mkdir, At-mkdir_all, At-create, At-append_file, At-chmod, At-remove, At-rename)
