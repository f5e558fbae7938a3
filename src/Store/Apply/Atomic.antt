-- ===== src/Store/Apply/Atomic.antt =====
-- `Apply` of a file, from its call to its result: the destination changes in one step, from what was
-- found there to the whole file.
use backuply.Base.{
  ◌≡◌, ◌≢◌, refl, arith, true, false, Option, none, some, [], text_eq, ◌==◌, ==_iff, All,
  if◌then◌else◌,
}
use backuply.Base.Dict
use backuply.Text.{Text}
use backuply.Text.Split.{split, split-ne-nil}
use backuply.Model.{Entry, file, directory, blocks_eq, int_eq}
use backuply.Store.Path.{slash}
use backuply.Store.Path.Safe.{IsSafePart}
use backuply.Store.Validate.{validate_entry}
use backuply.Store.Validate.Exact.{validate_entry_iff}
use backuply.Store.Codec.{Codec}
use backuply.Store.Disk.{Volume, FilePath, Node, node_at}
use backuply.Store.Exec.{Exec, World, ◌>>=◌, ◌>>◌}
use backuply.Store.Exec.Keeps.{
  Triple, Post, On, IsQuiet, Triple-lift, Triple-bind, Triple-conseq, Triple-if, Triple-require,
  Keeps-step, Keeps-lift, Keeps-gets,
}
use backuply.Store.Root.{open_file}
use backuply.Store.Root.Writes.{Has, Holds}
use backuply.Store.Root.Values.{Triple-known, Mounted}
use backuply.Store.Root.Reads.{Keeps-open_file}
use backuply.Store.Folder.{is_regular, open_folder, check_components}
use backuply.Store.Folder.Reads.{Keeps-check_components}
use backuply.Store.Fingerprint.Exact.{describe, Triple-fingerprint}
use backuply.Store.Apply.{
  apply_directory, Fetch, not_edited, absent, older, lstat?, install, apply_file, apply,
}
use backuply.Store.Apply.Reads.{Keeps-not_deleted, Keeps-not_edited}
use backuply.Store.Apply.Stages.{IsComplete, IsSafe}
use backuply.Store.Apply.Install.{
  found-IsSafe, Triple-install, is_regular_iff, Triple-lstat?, Triple-open_folder,
  Triple-reuse_in_place,
}

not_a_directory : (e : Entry) → e.kind ≡ file → (e.kind == directory) ≡ false
not_a_directory e k = ground arith

Mounted-Has :
    (root : Text) (v : Volume) (p : FilePath) (o : Option Node) (w : World)
    → On (Mounted root v p o) w
    → On (Has v p o) w
Mounted-Has root v p o w h = record { quiet = h.quiet; disk = record { node = h.disk.node } }

module _ (c : Codec) (e : Entry) (v : Volume) (nonce : Text) (fetch : Fetch) (folder root : Text)
    (safe : All IsSafePart (split slash e.path)) where
  abbrev P : FilePath
  P = split slash e.path

  below_root : P ≢ []
  below_root = split-ne-nil slash e.path

  safely :
      {A : Type 0} {m : Exec A} {Q : A → World → Type 0} (o : Option Node)
      → Triple (On (Has v P o)) m Q (On (Has v P o))
      → Triple (On (Has v P o)) m Q (On (IsSafe c e v P o))
  safely o t = Triple-conseq (λ w h. h) t (λ _ w h. h) (found-IsSafe c e v P o)

  replaced :
      (n : Node) (current : Entry)
      → Triple
          (On (Has v P (some n)))
          (do
            not_edited c folder e.path current
            old ← open_file v P
            install c nonce fetch folder root e v P (older old current))
          (λ _. On (Holds v P (IsComplete c e)))
          (On (IsSafe c e v P (some n)))
  replaced n current = Triple-bind (safely _ (Keeps-not_edited c folder e.path current)) (λ _.
      Triple-bind (safely _ (Keeps-open_file v P)) (λ old.
        Triple-install c e v P _ nonce fetch folder root safe below_root (older old current)))

  some_file :
      (n : Node)
      → Triple
          (On (Has v P (some n)))
          (apply_file c nonce fetch folder root e v P (some n))
          (λ _. On (Holds v P (IsComplete c e)))
          (On (IsSafe c e v P (some n)))
  unfolding apply_file describe
  some_file n =
      Triple-require (is_regular n.kind) _ _
        (λ r. Triple-known _ (safely _ (Triple-fingerprint c v e.path n)) (
          Triple-if (c.hash_bytes n.bytes == e.hash) _ _
            (λ same.
              Triple-reuse_in_place c e v P below_root n folder _ (is_regular_iff n.kind r)
                ((==_iff _ _).0 same))
            (λ _. replaced n _)))
        (found-IsSafe c e v P (some n))

  Triple-apply_file :
      (o : Option Node)
      → Triple
          (On (Has v P o))
          (apply_file c nonce fetch folder root e v P o)
          (λ _. On (Holds v P (IsComplete c e)))
          (On (IsSafe c e v P o))
  unfolding apply_file
  Triple-apply_file (some n) = some_file n
  Triple-apply_file none =
      Triple-bind (safely _ (Keeps-not_deleted c folder e.path))
        (λ _. Triple-install c e v P none nonce fetch folder root safe below_root absent)

  all_of_apply :
      (o : Option Node)
      → e.kind ≡ file
      → Triple
          (On (Mounted root v P o))
          (do
            v' ← open_folder root folder
            check_components v' e.path true
            info ← lstat? v' P
            if e.kind == directory
                then apply_directory c folder e v' P info
                else apply_file c nonce fetch folder root e v' P info)
          (λ _. On (Holds v P (IsComplete c e)))
          (On (IsSafe c e v P o))
  all_of_apply o k =
      Triple-known _
        (Triple-conseq (λ w h. h) (Triple-open_folder root v P o folder) (λ _ w h. h)
          (λ w h. found-IsSafe c e v P o w (Mounted-Has root v P o w h)))
        (Triple-conseq (Mounted-Has root v P o)
          (Triple-bind (safely o (Keeps-check_components v e.path true)) (λ _.
            Triple-known _ (safely o (Triple-lstat? v P o))
              (rw (not_a_directory e k) (Triple-apply_file o))))
          (λ _ w h. h) (λ w h. h))

module _ (c : Codec) (e : Entry) (v : Volume) (nonce : Text) (fetch : Fetch)
    (folder root : Text) where
  Triple-apply :
      (o : Option Node)
      → e.kind ≡ file
      → Triple
          (On (Mounted root v (split slash e.path) o))
          (apply c nonce fetch folder root e)
          (λ _. On (Holds v (split slash e.path) (IsComplete c e)))
          (On (IsSafe c e v (split slash e.path) o))
  unfolding apply
  Triple-apply o k =
      let safe : (w : World)
          → On (Mounted root v (split slash e.path) o) w
          → On (IsSafe c e v (split slash e.path) o) w =
        (λ w h. found-IsSafe c e v (split slash e.path) o w (Mounted-Has root v _ o w h)) in
      Triple-lift (validate_entry e) _
        (λ _ valid. Triple-bind (Triple-conseq (λ w h. h) Keeps-step (λ _ w h. h) safe) (λ _.
          Triple-bind (Triple-conseq (λ w h. h) Keeps-step (λ _ w h. h) safe) (λ _.
            Triple-bind (Triple-conseq (λ w h. h) (Keeps-gets _) (λ _ w h. h) safe) (λ r.
              Triple-bind (Triple-conseq (λ w h. h) (Keeps-lift r) (λ _ w h. h) safe) (λ _.
                all_of_apply c e v nonce fetch folder root
                  ((validate_entry_iff e).0 valid).path.parts o k)))))
        safe

-- `Apply` of a file, with other processes leaving the folder alone but any of its own steps failing:
-- if it returns, a regular file with the entry's hash and permissions stands at the destination; if
-- it fails, what stood there before it stands there still, or that whole file does.
pub apply_atomic :
    (c : Codec) (e : Entry) (v : Volume) (nonce : Text) (fetch : Fetch) (folder root : Text)
    → (w : World) → e.kind ≡ file
    → IsQuiet w
    → Dict.lookup root w.disk.mounts ≡ some v
    → Post
        (λ _ w'. Holds v (split slash e.path) (IsComplete c e) w'.disk)
        (λ w'. IsSafe c e v (split slash e.path) (node_at w.disk v (split slash e.path)) w'.disk)
        (apply c nonce fetch folder root e w)
apply_atomic c e v nonce fetch folder root w k quiet mounted =
    (Triple-conseq (λ w h. h)
        (Triple-apply c e v nonce fetch folder root (node_at w.disk v (split slash e.path)) k)
        (λ _ w h. h.disk) (λ w h. h.disk)).run
      w (record { quiet = quiet; disk = record { mounted = mounted; node = refl } })
