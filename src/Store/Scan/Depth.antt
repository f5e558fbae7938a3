-- ===== src/Store/Scan/Depth.antt =====
-- The walk of internal/store/scan.go never reaches the depth that its fuel allows.
use mathlib.Core.Path.{fun_ext}
use backuply.Base.{
  ℕ, zero, suc, ◌+◌, ◌≤◌, ◌≡◌, ◌⊎◌, inl, inr, refl, ap, arith, true, Option, none, [], ◌∷◌, ◌++◌,
  length, length-append, ltb, text_eq, Bool-cases,
}
use backuply.Base.Result.{Result, ok, err}
use backuply.Text.{Text}
use backuply.Text.Split.{join}
use backuply.Store.Error.{Error, invalid_path}
use backuply.Store.Path.{slash, valid_path, reserved}
use backuply.Store.Codec.{Codec}
use backuply.Store.Disk.{Volume, FilePath, FileKind}
use backuply.Store.Exec.{World, Exec, lift, ◌>>=◌}
use backuply.Store.Exec.Keeps.{step-outcome}
use backuply.Store.Folder.{check_components}
use backuply.Store.Scan.{
  Walked, visit, visit_name, enter, read_dir, walk_all, walk, base_name, max_depth,
}

length-join : (ws : FilePath) → length ws ≤ length (join slash ws) + 1
unfolding join
length-join [] = omega arith
length-join (p ∷ []) = omega arith
length-join (p ∷ q ∷ ps) =
    omega (arith, length-join (q ∷ ps), length-append {0} p (slash ∷ join slash (q ∷ ps)))

too_long : (ws : FilePath) → 4098 ≤ length ws → valid_path (join slash ws) ≡ err invalid_path
unfolding valid_path
too_long ws h =
    let long : ltb 4096 (length (join slash ws)) ≡ true = ground (arith, length-join ws) in
    ground arith

-- No name below was visited.
abbrev IsOver : Result Error (Option Walked) → Type 0
IsOver r = (r ≡ ok none) ⊎ ((e : Error) × (r ≡ err e))

module _ {r : Result Error (Option Walked)} (w : World) (f g : Option Walked → Exec Walked) where
  same_end : IsOver r → f none ≡ g none → (lift r >>= f) w ≡ (lift r >>= g) w
  unfolding ◌>>=◌
  same_end (inl e) h = rw e (ap (λ m. m w) h)
  same_end (inr (x, e)) h = rw e refl

module _ (c : Codec) where
  -- At that depth a name is reserved, or too long.
  visit-IsOver :
      (v : Volume) (parts : FilePath) (acc : Walked) (w : World)
      → 4098 ≤ length parts
      → IsOver (visit c v parts acc w).0
  unfolding visit visit_name check_components ◌>>=◌
  visit-IsOver v parts acc w h = elim (step-outcome w) [
    | inl e ↦ elim (Bool-cases (reserved (base_name parts))) [
      | inl own ↦ rw (e, own) (inl refl)
      | inr other ↦ rw (e, other, too_long parts h) (inr (invalid_path, refl))
    ]
    | inr (n, e) ↦ rw e (inr (_, refl))
  ]

  visit_deep :
      (v : Volume) (parts : FilePath) (acc : Walked)
      → 4098 ≤ length parts
      → (f g : Option Walked → Exec Walked) → f none ≡ g none
      → (visit c v parts acc >>= f) ≡ (visit c v parts acc >>= g)
  unfolding ◌>>=◌
  visit_deep v parts acc h f g e =
      fun_ext (λ w. same_end (visit c v parts acc w).1 f g (visit-IsOver v parts acc w h) e)

  -- With fuel for the depths up to 4098, more fuel does not change the walk.
  pub walk-enough :
      (k : ℕ) (v : Volume) (parts : FilePath) (kind : FileKind) (acc : Walked)
      → max_depth ≤ length parts + k
      → walk c k v parts kind acc ≡ walk c (suc k) v parts kind acc
  unfolding walk enter
  walk-enough zero v parts kind acc h =
      visit_deep v parts acc (omega (arith, h)) (enter c kind acc _) (enter c kind acc _) refl
  walk-enough (suc k) v parts kind acc h =
      ap
        (λ one.
          visit c v parts acc
          >>= enter c kind acc
              (λ acc'. read_dir v parts >>= λ names. walk_all c (λ x a. one x a) names acc'))
        (fun_ext (λ x. fun_ext (λ a. walk-enough k v (parts ++ x.0 ∷ []) x.1 a (deeper x.0))))
    where
      deeper : (name : Text) → max_depth ≤ length (parts ++ name ∷ []) + k
      deeper name = omega (arith, h, length-append {0} parts (name ∷ []))
