-- ===== src/Config/Validate/Disjoint.antt =====
-- Two folders of an accepted configuration never share a file.
use backuply.Base.{
  ℕ, zero, suc, ◌≡◌, ◌⊎◌, inl, inr, refl, sym, ap, ◌∙◌, arith, some, List, [], ◌∷◌, ◌++◌, get_elem?,
  All,
}
use backuply.Base.Result.{ok}
use backuply.Text.{Text}
use backuply.Config.{Config}
use backuply.Config.Library.{Files}
use backuply.Config.Paths.Below.{IsBelow}
use backuply.Config.Paths.Canonical.{IsClean}
use backuply.Config.Validate.{all_paths, validate}
use backuply.Config.Validate.Roots.{AllRoots, ApartFrom, IsApart}
use backuply.Config.Validate.Exact.{validate_iff}

IsBelow-cons : (x : Text) (p q : List Text) → IsBelow p q → IsBelow (x ∷ p) (x ∷ q)
IsBelow-cons x p q b = (b.0, ap (λ t. x ∷ t) b.1)

-- Of two paths above a third, one is above the other.
comparable : (p q r s : List Text) → p ++ r ≡ q ++ s → IsBelow p q ⊎ IsBelow q p
comparable [] q r s e = inl (q, refl)
comparable (x ∷ p) [] r s e = inr (x ∷ p, refl)
comparable (x ∷ p) (y ∷ q) r s e =
    let same : x ≡ y = ground (arith, e) in
    rw same (elim (comparable p q r s (ground (arith, e))) [
      | inl b ↦ inl (IsBelow-cons y p q b)
      | inr b ↦ inr (IsBelow-cons y q p b)
    ])

one_above : (p q t : List Text) → IsBelow p t → IsBelow q t → ¬ IsApart p q
one_above p q t b c a = elim (comparable p q b.0 c.0 (sym b.1 ∙ c.1)) [
  | inl h ↦ a.not_below h
  | inr h ↦ a.not_above h
]

-- A later root is apart from those seen.
IsApart-get :
    (seen roots : List (List Text)) (i : ℕ) (r : List Text)
    → ApartFrom seen roots
    → get_elem? roots i ≡ some r
    → All (IsApart r) seen
IsApart-get seen [] i r a h = cc
IsApart-get seen (s ∷ roots) zero r a h = let e : s ≡ r = ground (arith, h) in rw (sym e) a.0
IsApart-get seen (s ∷ roots) (suc i) r a h = (IsApart-get (s ∷ seen) roots i r a.1 h).1

unique :
    (seen roots : List (List Text)) (i j : ℕ) (r s t : List Text)
    → ApartFrom seen roots
    → get_elem? roots i ≡ some r
    → get_elem? roots j ≡ some s
    → IsBelow r t
    → IsBelow s t
    → i ≡ j
unique seen [] i j r s t a h k b c = cc
unique seen (x ∷ roots) zero zero r s t a h k b c = refl
unique seen (x ∷ roots) zero (suc j) r s t a h k b c =
    let e : x ≡ r = ground (arith, h) in
    absurd (one_above s r t c b (rw (sym e) (IsApart-get (x ∷ seen) roots j s a.1 k).0))
unique seen (x ∷ roots) (suc i) zero r s t a h k b c =
    let e : x ≡ s = ground (arith, k) in
    absurd (one_above r s t b c (rw (sym e) (IsApart-get (x ∷ seen) roots i r a.1 h).0))
unique seen (x ∷ roots) (suc i) (suc j) r s t a h k b c =
    ap suc (unique (x ∷ seen) roots i j r s t a.1 h k b c)

-- In a configuration that `Validate` accepts, if resolved symbolic links are clean paths, the state
-- directory and the folders resolve to directories such that no path is within two of them.
pub validate-Disjoint :
    (files : Files) (c : Config)
    → IsClean files
    → validate files c ≡ ok tt
    → (roots : List (List Text)) × AllRoots files (all_paths c) roots
      × ((i j : ℕ) (r s t : List Text)
          → get_elem? roots i ≡ some r
          → get_elem? roots j ≡ some s
          → IsBelow r t
          → IsBelow s t
          → i ≡ j)
validate-Disjoint files c fine h =
    let valid = (validate_iff files c fine).0 h in
    (valid.roots, valid.resolved, λ i j r s t. unique [] valid.roots i j r s t valid.apart)
