-- ===== src/Config/Paths.antt =====
-- `canonicalPath` and `containsPath` of internal/config/config.go, with what they use of filepath. An
-- absolute path that is clean is the list of its elements.
pub mod Below
pub mod Canonical
use mathlib.Core.List.{reverse}
use backuply.Base.{
  ℕ, ◌≡◌, refl, Bool, true, false, ◌&&◌, ◌||◌, not, List, [], ◌∷◌, ◌++◌, text_eq, ◌==◌,
  if◌then◌else◌,
}
use backuply.Base.Result.{Result, ok, err, ◌>>=◌}
use backuply.Text.{Text, codes, has_prefix}
use backuply.Text.Split.{split, join}
use backuply.Store.Path.{slash}
use backuply.Config.Error.{Error}
use backuply.Config.Library.{Files, present, missing, failed}

-- filepath.IsAbs
unfoldable pub is_absolute : Text → Bool
is_absolute path = has_prefix path (codes "/")

-- The elements of a path, innermost first: empty ones and "." go, and ".." takes one back.
clean_onto : List Text → List Text → List Text
clean_onto up [] = up
clean_onto up (part ∷ parts) =
    let same = clean_onto up parts in
    let back : List Text = elim up [
      | [] ↦ clean_onto [] parts
      | _ ∷ above ↦ clean_onto above parts
    ] in
    let down = clean_onto (part ∷ up) parts in
    if part == [] || part == codes "." then same else if part == codes ".." then back else down

-- filepath.Clean of an absolute path, innermost element first
unfoldable pub clean : Text → List Text
unfolding clean_onto
clean path = clean_onto [] (split slash path)

-- `canonicalPath`: the longest part of the path that is there is resolved, and the rest is kept.
unfoldable pub canonical_path : Files → List Text → Result Error (List Text)
canonical_path files [] = elim (files.lstat []) [
  | present ↦ files.eval_symlinks []
  | missing ↦ ok []
  | failed e ↦ err e
]
canonical_path files (name ∷ up) =
    let path = reverse (name ∷ up) in
    let below : Result Error (List Text) = (do
      resolved ← canonical_path files up
      ok (resolved ++ name ∷ [])) in
    elim (files.lstat path) [
      | present ↦ files.eval_symlinks path
      | missing ↦ below
      | failed e ↦ err e
    ]

-- One step back for each element
ups : List Text → List Text
ups [] = []
ups (_ ∷ parts) = codes ".." ∷ ups parts

-- filepath.Rel, element by element
unfoldable pub relative : List Text → List Text → List Text
unfolding ups
relative [] target = target
relative (b ∷ base) [] = ups (b ∷ base)
relative (b ∷ base) (t ∷ target) =
    let rest = relative base target in if b == t then rest else ups (b ∷ base) ++ (t ∷ target)

rel_text : List Text → Text
rel_text [] = codes "."
rel_text (part ∷ parts) = join slash (part ∷ parts)

unfoldable pub contains_path : List Text → List Text → Bool
unfolding rel_text
contains_path parent child =
    let rel = rel_text (relative parent child) in
    not (rel == codes "..") && not (has_prefix rel (codes "../"))

paths_run :
    (clean (codes "/a//b/../c/.") ≡ codes "c" ∷ codes "a" ∷ [])
    × (contains_path (codes "a" ∷ []) (codes "a" ∷ codes "b" ∷ []) ≡ true)
    × (contains_path (codes "a" ∷ []) (codes "ab" ∷ []) ≡ false)
unfolding clean contains_path relative split join text_eq has_prefix
paths_run = (refl, refl, refl)
