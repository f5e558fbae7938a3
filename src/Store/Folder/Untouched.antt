-- ===== src/Store/Folder/Untouched.antt =====
-- The checks of paths and markers, and the calls that they make, leave the index as it is, whatever
-- other processes do to the disk.
use backuply.Base.{ℕ, ◌≡◌, ◌∙◌, Bool, Option, none, some, [], ◌∷◌, ◌++◌}
use backuply.Base.Result.{Result, ok, err}
use backuply.Text.{Text}
use backuply.Store.Error.{Error, not_exist}
use backuply.Store.Index.{Db}
use backuply.Store.Disk.{Volume, FilePath, FileKind, regular, dir, Node, Handle}
use backuply.Store.Exec.{World, Exec, step}
use backuply.Store.Exec.Keeps.{
  Keeps, Triple, Post, Keeps-pure, Keeps-fail, Keeps-lift, Keeps-gets, Keeps-if, Keeps-try,
  Keeps-bind, Triple-bind, Triple-gets, Triple-pure,
}
use backuply.Store.Exec.Inversion.{step-db}
use backuply.Store.Root.{found, open_root, lstat, open_file, stat, read_at}
use backuply.Store.Folder.{
  check_marker, check_folder, open_folder, component_error, check_element, check_elements,
  check_components, is_nil,
}

-- The index is this one.
abbrev pub At : Db → World → Type 0
At d w = w.db ≡ d

Post-step :
    (d : Db) (w : World) (r : Result Error (Unit {0})) (w' : World)
    → w'.db ≡ w.db
    → w.db ≡ d
    → Post (λ _. At d) (At d) (r, w')
Post-step d w (ok a) w' e h = e ∙ h
Post-step d w (err x) w' e h = e ∙ h

module _ {d : Db} where
  pub At-step : Keeps (At d) step
  At-step = record { run = λ w h. Post-step d w (step w).0 (step w).1 (step-db w) h }

pub ruleset db_rules =
    (Keeps-pure, Keeps-fail, Keeps-lift, Keeps-gets, Keeps-if, Keeps-try, Keeps-bind, At-step)

module _ {d : Db} where
  pub At-found : {A : Type 0} (o : Option A) → Keeps (At d) (found o)
  unfolding found
  At-found none = Keeps-fail _
  At-found (some a) = Keeps-pure a

  pub At-open_root : (root : Text) → Keeps (At d) (open_root root)
  unfolding open_root
  At-open_root root = search (db_rules, At-found) depth 8

  pub At-lstat : (v : Volume) (p : FilePath) → Keeps (At d) (lstat v p)
  unfolding lstat
  At-lstat v p = search (db_rules, At-found) depth 8

  pub At-open_file : (v : Volume) (p : FilePath) → Keeps (At d) (open_file v p)
  unfolding open_file
  At-open_file v p = search (db_rules, At-found) depth 8

  pub At-stat : (h : Handle) → Keeps (At d) (stat h)
  unfolding stat
  At-stat h = search db_rules depth 8

  pub At-read_at : (h : Handle) (n offset : ℕ) → Keeps (At d) (read_at h n offset)
  unfolding read_at
  At-read_at h n offset = search db_rules depth 8

pub ruleset db_reads = (db_rules, At-open_root, At-lstat, At-open_file, At-stat, At-read_at)

module _ {d : Db} where
  pub At-check_marker : (v : Volume) (folder : Text) → Keeps (At d) (check_marker v folder)
  unfolding check_marker
  At-check_marker v folder = search db_reads depth 12

  pub At-check_folder : (root folder : Text) → Keeps (At d) (check_folder root folder)
  unfolding check_folder
  At-check_folder root folder = search (db_reads, At-check_marker)

  pub At-open_folder : (root folder : Text) → Keeps (At d) (open_folder root folder)
  unfolding open_folder
  At-open_folder root folder = search (db_reads, At-check_marker)

  pub At-component_error :
      (kind : FileKind) (last : Bool) → Keeps (At d) (component_error kind last)
  unfolding component_error
  At-component_error dir last = search db_rules
  At-component_error regular last = search db_rules
  At-component_error _ last = search db_rules

  pub At-check_element :
      (allow last : Bool) (rest : Exec (Unit {0})) (r : Result _ Node)
      → Keeps (At d) rest
      → Keeps (At d) (check_element allow last rest r)
  unfolding check_element
  At-check_element allow last rest (ok info) h =
      Keeps-bind (At-component_error info.kind last) (λ _. h)
  At-check_element allow last rest (err not_exist) h = search db_rules
  At-check_element allow last rest (err e) h = search db_rules

  pub At-check_elements :
      (v : Volume) (allow : Bool) (done parts : FilePath)
      → Keeps (At d) (check_elements v allow done parts)
  unfolding check_elements
  At-check_elements v allow done [] = search db_rules
  At-check_elements v allow done (part ∷ parts) =
      Keeps-bind (Keeps-try (At-lstat v (done ++ part ∷ []))) (λ r.
        At-check_element allow (is_nil parts) _ r
          (At-check_elements v allow (done ++ part ∷ []) parts))

  pub At-check_components :
      (v : Volume) (name : Text) (allow : Bool) → Keeps (At d) (check_components v name allow)
  unfolding check_components
  At-check_components v name allow = search (db_rules, At-check_elements)
