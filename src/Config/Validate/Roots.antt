-- ===== src/Config/Validate/Roots.antt =====
-- The paths that `Validate` accepts: resolved, and none within another.
use backuply.Base.{
  ◌≡◌, ◌↔◌, inl, inr, refl, arith, true, false, ◌&&◌, not, List, [], ◌∷◌, any, Bool-cases, All,
}
use backuply.Base.Result.{ok, bind-eq-ok}
use backuply.Text.{Text}
use backuply.Text.Cut.{holds}
use backuply.Config.Library.{Files}
use backuply.Config.Paths.{is_absolute, clean, canonical_path, contains_path}
use backuply.Config.Paths.Below.{IsBelow, IsPlain, contains_path_iff}
use backuply.Config.Paths.Canonical.{IsClean, clean-IsPlain, canonical_path-IsPlain}
use backuply.Config.Validate.{overlap, validate_paths}

-- What stands at a configured path, with its symbolic links resolved
pub record IsRoot (files : Files) (path : Text) (root : List Text) : Type 0 where
  pub absolute : is_absolute path ≡ true
  pub no_null : holds 0 path ≡ false
  pub resolved : canonical_path files (clean path) ≡ ok root

-- Neither path is the other or within it.
pub record IsApart (p q : List Text) : Type 0 where
  pub not_below : ¬ IsBelow p q
  pub not_above : ¬ IsBelow q p

abbrev pub AllRoots : Files → List Text → List (List Text) → Type 0
AllRoots files [] [] = Unit
AllRoots files [] (r ∷ rs) = ⊥
AllRoots files (p ∷ ps) [] = ⊥
AllRoots files (p ∷ ps) (r ∷ rs) = IsRoot files p r × AllRoots files ps rs

-- Each path is apart from those seen and from those before it.
abbrev pub ApartFrom : List (List Text) → List (List Text) → Type 0
ApartFrom seen [] = Unit
ApartFrom seen (r ∷ rs) = All (IsApart r) seen × ApartFrom (r ∷ seen) rs

overlap_iff :
    (p q : List Text) → All IsPlain p → All IsPlain q → (overlap p q ≡ false) ↔ IsApart p q
overlap_iff p q hp hq =
    let (s, c) = contains_path_iff p q hq in
    let (s', c') = contains_path_iff q p hp in
    (
      λ h. record {
        not_below = λ b. let e = c b in ground arith;
        not_above = λ b. let e = c' b in ground arith;
      },
      λ k. elim (Bool-cases (contains_path p q)) [
        | inl e ↦ absurd (k.not_below (s e))
        | inr e ↦ elim (Bool-cases (contains_path q p)) [
          | inl f ↦ absurd (k.not_above (s' f))
          | inr f ↦ ground arith
        ]
      ],
    )

any-overlap_iff :
    (p : List Text) (seen : List (List Text))
    → All IsPlain p
    → All (All IsPlain) seen
    → (any (overlap p) seen ≡ false) ↔ All (IsApart p) seen
any-overlap_iff p [] hp hs = (λ _. tt, λ _. refl)
any-overlap_iff p (q ∷ seen) hp hs =
    let (s, c) = overlap_iff p q hp hs.0 in
    let (s', c') = any-overlap_iff p seen hp hs.1 in
    (
      λ h. (s (ground arith), s' (ground arith)),
      λ k. let e = c k.0 in let f = c' k.1 in ground arith,
    )

module _ (files : Files) (fine : IsClean files) where
  validate_paths_sound :
      (paths : List Text) (seen : List (List Text))
      → All (All IsPlain) seen
      → validate_paths files paths seen ≡ ok tt
      → (roots : List (List Text)) × AllRoots files paths roots × ApartFrom seen roots
  unfolding validate_paths
  validate_paths_sound [] seen h v = ([], tt, tt)
  validate_paths_sound (path ∷ paths) seen h v =
      let first : (is_absolute path && not (holds 0 path)) ≡ true = ground arith in
      let k = rw first at v in
      let (root, done, k2) = bind-eq-ok (canonical_path files (clean path)) _ k in
      let plain = canonical_path-IsPlain files fine (clean path) root (clean-IsPlain path) done in
      let one = any-overlap_iff root seen plain h in
      let (roots, all_roots, apart) =
        validate_paths_sound paths (root ∷ seen) (plain, h) (ground (arith, k2)) in
      (
        root ∷ roots,
        (record { absolute = ground arith; no_null = ground arith; resolved = done }, all_roots),
        (one.0 (ground (arith, k2)), apart),
      )

  validate_paths_complete :
      (paths : List Text) (seen roots : List (List Text))
      → All (All IsPlain) seen
      → AllRoots files paths roots
      → ApartFrom seen roots
      → validate_paths files paths seen ≡ ok tt
  unfolding validate_paths
  validate_paths_complete [] seen roots h r a = refl
  validate_paths_complete (path ∷ paths) seen [] h r a = absurd r
  validate_paths_complete (path ∷ paths) seen (root ∷ roots) h r a =
      let plain =
        canonical_path-IsPlain files fine (clean path) root (clean-IsPlain path) r.0.resolved in
      let one = (any-overlap_iff root seen plain h).1 a.0 in
      let rest = validate_paths_complete paths (root ∷ seen) roots (plain, h) r.1 a.1 in
      let first : (is_absolute path && not (holds 0 path)) ≡ true =
        ground (arith, r.0.absolute, r.0.no_null) in
      rw (first, r.0.resolved, one) rest

  pub validate_paths_iff :
      (paths : List Text) (seen : List (List Text))
      → All (All IsPlain) seen
      → (validate_paths files paths seen ≡ ok tt)
        ↔ ((roots : List (List Text)) × AllRoots files paths roots × ApartFrom seen roots)
  validate_paths_iff paths seen h =
      (validate_paths_sound paths seen h, λ k. validate_paths_complete paths seen k.0 h k.1 k.2)
