-- ===== src/Store/Root/Writes.antt =====
-- What the changing calls of os.Root and os.File do to a quiet disk, seen at a destination and at a
-- temporary file.
use mathlib.Core.Path.{subst}
use mathlib.Core.Option.{some-injective}
use backuply.Base.{
  ℕ, ◌+◌, ◌<◌, ◌≡◌, ◌≢◌, refl, sym, ap, ◌∙◌, arith, Option, none, some, [], ◌∷◌, ◌++◌, length,
  length-append,
}
use backuply.Base.Dict
use backuply.Text.{Text}
use backuply.Store.Disk.{
  Disk, Volume, FilePath, FileKind, regular, dir, Node, location_eq, node_at, put_node, remove_node,
  new_node,
}
use backuply.Store.Exec.{World, change_disk, step}
use backuply.Store.Exec.Keeps.{
  Keeps, Triple, On, keeps_rules, Keeps-step, Keeps-bind, Triple-bind, Triple-gets,
  Triple-change_disk, Triple-conseq, Triple-fail, Keeps-gets, Keeps-pure,
}
use backuply.Store.Root.{
  make_new, make_dir, mkdir_all, create, update_node, append_file, chmod, remove, move_node, rename,
}

pub node_at-put_self :
    (v : Volume) (p : FilePath) (n : Node) (d : Disk)
    → p ≢ []
    → node_at (put_node v p n d) v p ≡ some n
unfolding node_at put_node
node_at-put_self v [] n d ne = absurd (ne refl)
node_at-put_self v (part ∷ parts) n d ne =
    ground (arith, Dict.lookup-insert (v, part ∷ parts) (v, part ∷ parts) n d.nodes)

pub node_at-put_other :
    (v : Volume) (p q : FilePath) (n : Node) (d : Disk)
    → p ≢ q
    → node_at (put_node v p n d) v q ≡ node_at d v q
unfolding node_at put_node
node_at-put_other v p [] n d ne = refl
node_at-put_other v p (part ∷ parts) n d ne =
    ground (arith, Dict.lookup-insert (v, part ∷ parts) (v, p) n d.nodes)

pub node_at-remove_other :
    (v : Volume) (p q : FilePath) (d : Disk)
    → p ≢ q
    → node_at (remove_node v p d) v q ≡ node_at d v q
unfolding node_at remove_node
node_at-remove_other v p [] d ne = refl
node_at-remove_other v p (part ∷ parts) d ne =
    ground (arith, Dict.lookup-erase (v, part ∷ parts) (v, p) d.nodes)

node_at-fresh :
    (v : Volume) (q : FilePath) (k : ℕ) (d : Disk)
    → node_at (record d { fresh = k }) v q ≡ node_at d v q
unfolding node_at
node_at-fresh v [] k d = refl
node_at-fresh v (part ∷ parts) k d = refl

-- The node at the destination is as it was found.
pub record Has (v : Volume) (p : FilePath) (o : Option Node) (d : Disk) : Type 0 where
  pub node : node_at d v p ≡ o

-- There is a node at the path, with a property.
pub record Holds (v : Volume) (p : FilePath) (N : Node → Type 0) (d : Disk) : Type 0 where
  pub node : Node
  pub there : node_at d v p ≡ some node
  pub good : N node

-- The destination is as it was found, and the temporary file has a property.
pub record Staged (v : Volume) (p : FilePath) (o : Option Node) (tmp : FilePath) (N : Node → Type 0)
    (d : Disk) : Type 0 where
  pub kept : node_at d v p ≡ o
  pub node : Node
  pub there : node_at d v tmp ≡ some node
  pub good : N node

pub Keeps-remove :
    {D : Disk → Type 0} (v : Volume) (tmp : FilePath)
    → ((d : Disk) → D d → D (remove_node v tmp d))
    → Keeps (On D) (remove v tmp)
unfolding remove
Keeps-remove v tmp k = Triple-bind Keeps-step (λ _. Triple-change_disk _ k)

-- A change of the permissions of the file that stands at a path
chmod_node-Has :
    (v : Volume) (p : FilePath) (n : Node) (mode : ℕ) (d : Disk)
    → p ≢ []
    → Has v p (some n) d
    → Has v p (some (record n { mode = mode })) (update_node v p (λ x. record x { mode = mode }) d)
unfolding update_node
chmod_node-Has v p n mode d below h = record {
  node = rw (h.node, update_node) (node_at-put_self v p _ d below);
}

pub Triple-chmod :
    (v : Volume) (p : FilePath) (n : Node) (mode : ℕ)
    → p ≢ []
    → Triple
        (On (Has v p (some n)))
        (chmod v p mode)
        (λ _. On (Has v p (some (record n { mode = mode }))))
        (On (Has v p (some n)))
unfolding chmod
Triple-chmod v p n mode below =
    Triple-bind Keeps-step (λ _. Triple-change_disk _ (λ d h. chmod_node-Has v p n mode d below h))

module _ (v : Volume) (p tmp : FilePath) (o : Option Node) (apart : tmp ≢ p) where
  new_node-Has :
      (kind : FileKind) (mode : ℕ) (d : Disk) → Has v p o d → Has v p o (new_node kind mode v tmp d)
  unfolding new_node
  new_node-Has kind mode d h = record {
    node = node_at-put_other v tmp p _ _ apart ∙ node_at-fresh v p _ d ∙ h.node;
  }

  pub Staged-Has : {N : Node → Type 0} (w : World) → On (Staged v p o tmp N) w → On (Has v p o) w
  Staged-Has w h = record { quiet = h.quiet; disk = record { node = h.disk.kept } }

  make_dir_lem :
      (mode : ℕ) (found : Option Node) → Keeps (On (Has v p o)) (make_dir mode v tmp found)
  unfolding make_dir
  make_dir_lem mode none = Triple-change_disk _ (new_node-Has dir mode)
  make_dir_lem mode (some n) = search keeps_rules

  module _ (below : tmp ≢ []) where
    put_node-Staged :
        {N : Node → Type 0} (n : Node) (d : Disk)
        → node_at d v p ≡ o
        → N n
        → Staged v p o tmp N (put_node v tmp n d)
    put_node-Staged n d h good = record {
      kept = node_at-put_other v tmp p n d apart ∙ h;
      node = n;
      there = node_at-put_self v tmp n d below;
      good = good;
    }

    make_new_lem :
        (mode : ℕ) (found : Option Node)
        → Triple
            (On (Has v p o))
            (make_new regular mode v tmp found)
            (λ _. On (Staged v p o tmp (λ n. (n.kind ≡ regular) × (n.bytes ≡ []))))
            (On (Has v p o))
    unfolding make_new new_node
    make_new_lem mode none =
        Triple-change_disk _
          (λ d h. put_node-Staged _ _ (node_at-fresh v p _ d ∙ h.node) (refl, refl))
    make_new_lem mode (some n) = Triple-fail _ (λ w h. h)

    -- A created file is empty, and nothing else has changed.
    pub Triple-create :
        (mode : ℕ)
        → Triple
            (On (Has v p o))
            (create v tmp mode)
            (λ _. On (Staged v p o tmp (λ n. (n.kind ≡ regular) × (n.bytes ≡ []))))
            (On (Has v p o))
    unfolding create
    Triple-create mode =
        Triple-bind Keeps-step (λ _. Triple-bind (Keeps-gets _) (λ n. make_new_lem mode n))

    -- A change of the temporary file changes only it.
    Triple-update_node :
        {N N' : Node → Type 0} {E : World → Type 0} (f : Node → Node)
        → ((n : Node) → N n → N' (f n))
        → Triple
            (On (Staged v p o tmp N))
            (change_disk (update_node v tmp f))
            (λ _. On (Staged v p o tmp N'))
            E
    unfolding update_node
    Triple-update_node f k =
        Triple-change_disk _
          (λ d h. rw (h.there, update_node) (put_node-Staged (f h.node) d h.kept (k h.node h.good)))

    -- A step in front of it
    Keeps-step-Staged :
        {N : Node → Type 0}
        → Triple (On (Staged v p o tmp N)) step (λ _. On (Staged v p o tmp N)) (On (Has v p o))
    Keeps-step-Staged = Triple-conseq (λ w h. h) Keeps-step (λ _ w h. h) Staged-Has

    pub Triple-append_file :
        (content bytes' : Text)
        → Triple
            (On (Staged v p o tmp (λ n. (n.kind ≡ regular) × (n.bytes ≡ content))))
            (append_file v tmp bytes')
            (λ _. On (Staged v p o tmp (λ n. (n.kind ≡ regular) × (n.bytes ≡ content ++ bytes'))))
            (On (Has v p o))
    unfolding append_file
    Triple-append_file content bytes' =
        Triple-bind Keeps-step-Staged
          (λ _. Triple-update_node _ (λ n h. (h.0, ap (λ b. b ++ bytes') h.1)))

    pub Triple-chmod-Staged :
        (content : Text) (mode : ℕ)
        → Triple
            (On (Staged v p o tmp (λ n. (n.kind ≡ regular) × (n.bytes ≡ content))))
            (chmod v tmp mode)
            (λ _.
              On (
                Staged v p o tmp (λ n. (n.kind ≡ regular) × (n.bytes ≡ content) × (n.mode ≡ mode))))
            (On (Has v p o))
    unfolding chmod
    Triple-chmod-Staged content mode =
        Triple-bind Keeps-step-Staged (λ _. Triple-update_node _ (λ n h. (h.0, h.1, refl)))

    module _ (dest : p ≢ []) {N : Node → Type 0} where
      move_node_lem :
          (found : Option Node)
          → Triple
              (λ w. On (Staged v p o tmp N) w × (node_at w.disk v tmp ≡ found))
              (move_node v tmp p found)
              (λ _. On (Holds v p N))
              (On (Has v p o))
      unfolding move_node change_disk
      move_node_lem none = Triple-fail _ (λ w h. Staged-Has w h.0)
      move_node_lem (some n) = record {
        run = λ w h. record {
          quiet = h.0.quiet;
          disk = record {
            node = n;
            there = node_at-put_self v p n (remove_node v tmp w.disk) dest;
            good = subst N (some-injective _ _ (sym h.0.disk.there ∙ h.1)) h.0.disk.good;
          };
        };
      }

      -- A rename puts the temporary file, whole, at the destination, or changes nothing there.
      pub Triple-rename :
          Triple (On (Staged v p o tmp N)) (rename v tmp p) (λ _. On (Holds v p N)) (On (Has v p o))
      unfolding rename
      Triple-rename =
          Triple-bind Keeps-step-Staged
            (λ _. Triple-bind (Triple-gets _ (λ w h. (h, refl))) (λ n. move_node_lem n))

-- A path longer than the elements that are made cannot be one of them.
longer-ne : (p q : FilePath) → length p < length q → p ≢ q
longer-ne p q h e = absurd (omega (arith, ap length e))

pub Keeps-mkdir_all :
    (v : Volume) (p : FilePath) (o : Option Node) (mode : ℕ) (done parts : FilePath)
    → length done + length parts < length p
    → Keeps (On (Has v p o)) (mkdir_all v mode done parts)
unfolding mkdir_all
Keeps-mkdir_all v p o mode done [] h = Keeps-pure tt
Keeps-mkdir_all v p o mode done (part ∷ parts) h =
    let longer : length (done ++ part ∷ []) + length parts < length p =
      omega (arith, length-append {0} done (part ∷ [])) in
    let apart = longer-ne (done ++ part ∷ []) p (omega arith) in
    Keeps-bind Keeps-step (λ _. Keeps-bind (Keeps-gets _) (λ n.
      Keeps-bind (make_dir_lem v p (done ++ part ∷ []) o apart mode n)
        (λ _. Keeps-mkdir_all v p o mode (done ++ part ∷ []) parts longer)))
