-- ===== src/Store/Folder/Reads.antt =====
-- The checks of a folder leave a quiet disk as it was.
use backuply.Base.{Bool, [], ◌∷◌, ◌++◌}
use backuply.Base.Result.{Result, ok, err}
use backuply.Text.{Text}
use backuply.Store.Error.{not_exist}
use backuply.Store.Disk.{Disk, Volume, FilePath, FileKind, regular, dir, Node}
use backuply.Store.Exec.{Exec}
use backuply.Store.Exec.Keeps.{Keeps, On, Keeps-bind, Keeps-try}
use backuply.Store.Root.Reads.{reads, Keeps-lstat}
use backuply.Store.Folder.{
  check_marker, check_folder, open_folder, component_error, check_element, check_elements,
  check_components, sync_dir, is_nil,
}

module _ {D : Disk → Type 0} where
  pub Keeps-check_marker : (v : Volume) (folder : Text) → Keeps (On D) (check_marker v folder)
  unfolding check_marker
  Keeps-check_marker v folder = search reads depth 12

  pub Keeps-check_folder : (root folder : Text) → Keeps (On D) (check_folder root folder)
  unfolding check_folder
  Keeps-check_folder root folder = search (reads, Keeps-check_marker)

  pub Keeps-open_folder : (root folder : Text) → Keeps (On D) (open_folder root folder)
  unfolding open_folder
  Keeps-open_folder root folder = search (reads, Keeps-check_marker)

  Keeps-component_error : (kind : FileKind) (last : Bool) → Keeps (On D) (component_error kind last)
  unfolding component_error
  Keeps-component_error dir last = search reads
  Keeps-component_error regular last = search reads
  Keeps-component_error _ last = search reads

  Keeps-check_element :
      (allow last : Bool) (rest : Exec (Unit {0})) (r : Result _ Node)
      → Keeps (On D) rest
      → Keeps (On D) (check_element allow last rest r)
  unfolding check_element
  Keeps-check_element allow last rest (ok info) h =
      Keeps-bind (Keeps-component_error info.kind last) (λ _. h)
  Keeps-check_element allow last rest (err not_exist) h = search reads
  Keeps-check_element allow last rest (err e) h = search reads

  pub Keeps-check_elements :
      (v : Volume) (allow : Bool) (done parts : FilePath)
      → Keeps (On D) (check_elements v allow done parts)
  unfolding check_elements
  Keeps-check_elements v allow done [] = search reads
  Keeps-check_elements v allow done (part ∷ parts) =
      Keeps-bind (Keeps-try (Keeps-lstat v (done ++ part ∷ []))) (λ r.
        Keeps-check_element allow (is_nil parts) _ r
          (Keeps-check_elements v allow (done ++ part ∷ []) parts))

  pub Keeps-check_components :
      (v : Volume) (name : Text) (allow : Bool) → Keeps (On D) (check_components v name allow)
  unfolding check_components
  Keeps-check_components v name allow = search (reads, Keeps-check_elements)

  pub Keeps-sync_dir : (v : Volume) (p : FilePath) → Keeps (On D) (sync_dir v p)
  unfolding sync_dir
  Keeps-sync_dir v p = search reads

pub ruleset folder_reads = (
  reads, Keeps-check_marker, Keeps-check_folder, Keeps-open_folder, Keeps-check_components,
  Keeps-sync_dir,
)
