-- ===== src/Store/Root/Values.antt =====
-- What the reading calls of os.Root and os.File return for a file on a quiet disk.
use mathlib.Core.Path.{subst}
use mathlib.Core.Option.{some-injective}
use backuply.Base.{
  ℕ, ◌≡◌, ◌⊎◌, inl, inr, refl, sym, ap, ◌∙◌, arith, Option, none, some, length, take, drop, leb,
  text_eq,
}
use backuply.Base.Dict
use backuply.Text.{Text}
use backuply.Store.Disk.{Disk, Volume, FilePath, Node, Handle, node_at, behind}
use backuply.Store.Exec.{World, Exec, ◌>>=◌}
use backuply.Store.Exec.Keeps.{
  Keeps-after, step-outcome, Triple, Post, On, Keeps-step, Keeps-if, Keeps-pure, Keeps-fail,
  Triple-bind, Triple-after, Triple-gets, Triple-pure, Triple-fail,
}
use backuply.Base.Result.{Result, ok, err}
use backuply.Store.Error.{Error, not_exist, io_error}
use backuply.Store.Root.{found, open_root, lstat, open_file, stat, read_at}
use backuply.Store.Root.Writes.{Has}

-- The value is the expected one, and the disk as it was.
pub record Gives {A : Type 0} (D : Disk → Type 0) (expected a : A) (w : World) : Type 0 where
  pub on : On D w
  pub value : a ≡ expected

module _ {A B : Type 0} {P E : World → Type 0} {D : Disk → Type 0} {R : B → World → Type 0} where
  -- What follows an action is needed only at the value that it is known to return.
  pub Triple-known :
      {x : A} {m : Exec A} (f : A → Exec B)
      → Triple P m (Gives D x) E
      → Triple (On D) (f x) R E
      → Triple P (m >>= f) R E
  Triple-known {x} {m} f t k =
      Triple-bind t
        (λ a. record { run = λ w h. subst (λ b. Post R E (f b w)) (sym h.value) (k.run w h.on) })

module _ {A : Type 0} {P E : World → Type 0} {D : Disk → Type 0} where
  pub Gives-eq :
      {x y : A} {m : Exec A} → x ≡ y → Triple P m (Gives D x) E → Triple P m (Gives D y) E
  Gives-eq {m} e t = subst (λ z. Triple P m (Gives D z) E) e t

module _ (v : Volume) (p : FilePath) (n0 : Node) where
  abbrev pub D : Disk → Type 0
  D = Has v p (some n0)

  abbrev pub handle : Handle
  handle = record { volume = v; path = p; opened = n0 }

  behind_lem : (w : World) → On D w → behind w.disk handle ≡ n0
  unfolding behind
  behind_lem w h = rw (h.disk.node, behind) (ground arith)

  Triple-found :
      (o : Option Node)
      → Triple (λ w. On D w × (o ≡ node_at w.disk v p)) (found o) (Gives D n0) (On D)
  unfolding found
  Triple-found none = Triple-fail _ (λ w h. h.0)
  Triple-found (some n) =
      Triple-pure n (λ w h. record { on = h.0; value = some-injective _ _ (h.1 ∙ h.0.disk.node) })

  pub Triple-lstat : Triple (On D) (lstat v p) (Gives D n0) (On D)
  unfolding lstat
  Triple-lstat =
      Triple-after Keeps-step
        (λ _. Triple-bind (Triple-gets _ (λ w h. (h, refl))) (λ o. Triple-found o))

  pub Triple-open_file : Triple (On D) (open_file v p) (Gives D handle) (On D)
  unfolding open_file
  Triple-open_file = Triple-after Keeps-step (λ _.
      Triple-bind (Triple-gets _ (λ w h. (h, refl))) (λ o. Triple-bind (Triple-found o) (λ n.
        Triple-pure _ (λ w h. record {
          on = h.on;
          value = ap (λ x. record { volume = v; path = p; opened = x }) h.value;
        }))))

  pub Triple-stat : Triple (On D) (stat handle) (Gives D n0) (On D)
  unfolding stat
  Triple-stat =
      Triple-after Keeps-step
        (λ _. Triple-gets _ (λ w h. record { on = h; value = behind_lem w h }))

  pub Triple-read_at :
      (n offset : ℕ)
      → Triple (On D) (read_at handle n offset) (Gives D (take n (drop offset n0.bytes))) (On D)
  unfolding read_at
  Triple-read_at n offset = Triple-after Keeps-step (λ _.
      Triple-known _ (Triple-gets _ (λ w h. record { on = h; value = behind_lem w h })) (
        Triple-after
          (Keeps-if (leb n (length (drop offset n0.bytes))) _ _ (Keeps-pure tt) (Keeps-fail _))
          (λ _. Triple-pure _ (λ w h. record { on = h; value = refl }))))

-- What `Lstat` says of a path, if the call itself does not fail.
abbrev pub answer : Option Node → Result Error Node
answer none = err not_exist
answer (some n) = ok n

found_lem : (o : Option Node) (w : World) → (found o w).0 ≡ answer o
unfolding found ◌>>=◌
found_lem none w = refl
found_lem (some n) w = refl

pub lstat-outcome :
    (v : Volume) (p : FilePath) (o : Option Node) (w : World)
    → On (Has v p o) w
    → ((lstat v p w).0 ≡ answer o) ⊎ ((n : ℕ) × ((lstat v p w).0 ≡ err (io_error n)))
unfolding lstat ◌>>=◌
lstat-outcome v p o w h =
    let k = (Keeps-after w (Keeps-step {D = Has v p o}) h).disk.node in
    elim (step-outcome w) [
      | inl e ↦ rw (e, k) (inl (found_lem o _))
      | inr (n, e) ↦ rw e (inr (n, refl))
    ]

-- The root is mounted, with this at the path.
pub record Mounted (root : Text) (v : Volume) (p : FilePath) (o : Option Node) (d : Disk)
    : Type 0 where
  pub mounted : Dict.lookup root d.mounts ≡ some v
  pub node : node_at d v p ≡ o

module _ (root : Text) (v : Volume) (p : FilePath) (o : Option Node) where
  found-root :
      (u : Option Volume)
      → Triple
          (λ w. On (Mounted root v p o) w × (u ≡ Dict.lookup root w.disk.mounts))
          (found u)
          (Gives (Mounted root v p o) v)
          (On (Mounted root v p o))
  unfolding found
  found-root none = Triple-fail _ (λ w h. h.0)
  found-root (some u) =
      Triple-pure u
        (λ w h. record { on = h.0; value = some-injective _ _ (h.1 ∙ h.0.disk.mounted) })

  pub Triple-open_root :
      Triple
        (On (Mounted root v p o))
        (open_root root)
        (Gives (Mounted root v p o) v)
        (On (Mounted root v p o))
  unfolding open_root
  Triple-open_root =
      Triple-after Keeps-step
        (λ _. Triple-bind (Triple-gets _ (λ w h. (h, refl))) (λ u. found-root u))
