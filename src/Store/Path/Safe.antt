-- ===== src/Store/Path/Safe.antt =====
-- A path that `valid_path` accepts names something below the root, and nothing of the service's own.
use mathlib.Core.List.{reverse, reverse-append}
use backuply.Base.{
  ◌≤◌, ◌≡◌, ◌≢◌, ◌↔◌, refl, sym, ap, ◌∙◌, arith, true, false, ◌||◌, List, [], ◌∷◌, ◌++◌, length,
  any, All, text_eq, ◌==◌, append_assoc, if◌then◌else◌, Option, none, some,
}
use backuply.Base.Result.{ok}
use backuply.Text.{Text, codes, contains_any, valid_utf8, has_prefix}
use backuply.Text.Split.{split}
use backuply.Store.Limits.{marker_name, temp_prefix}
use backuply.Store.Path.{plain_element, all_plain, reserved, valid_path, slash}

-- A path element that is a plain name and not reserved.
pub record IsSafePart (part : Text) : Type 0 where
  pub ne_empty : part ≢ []
  pub ne_dot : part ≢ codes "."
  pub ne_dot_dot : part ≢ codes ".."
  pub ne_marker : part ≢ marker_name
  pub not_temp : has_prefix part temp_prefix ≡ false

pub record IsSafePath (name : Text) : Type 0 where
  pub encoded : valid_utf8 name ≡ true
  pub short : length name ≤ 4096
  pub portable : contains_any name (b'\\' ∷ b':' ∷ 0 ∷ []) ≡ false
  pub parts : All IsSafePart (split slash name)

part_iff : (part : Text) → ((plain_element part ≡ true) × (reserved part ≡ false)) ↔ IsSafePart part
unfolding plain_element reserved
part_iff part = (
  λ h. record {
    ne_empty = ground (arith, h.0);
    ne_dot = ground (arith, h.0);
    ne_dot_dot = ground (arith, h.0);
    ne_marker = ground (arith, h.1);
    not_temp = ground (arith, h.1);
  },
  λ s.
      (ground (arith, s.ne_empty, s.ne_dot, s.ne_dot_dot), ground (arith, s.ne_marker, s.not_temp)),
)

parts_iff :
    (parts : List Text)
    → ((all_plain parts ≡ true) × (any reserved parts ≡ false)) ↔ All IsSafePart parts
unfolding all_plain
parts_iff [] = (λ _. tt, λ _. (refl, refl))
parts_iff (part ∷ parts) = (
  λ h. (
    (part_iff part).0 (ground (arith, h.0), ground (arith, h.1)),
    (parts_iff parts).0 (ground (arith, h.0), ground (arith, h.1)),
  ),
  λ s.
      let p = (part_iff part).1 s.0 in
      let ps = (parts_iff parts).1 s.1 in (ground arith, ground arith),
)

dot-not_safe : (name : Text) → IsSafePath name → name ≢ codes "."
unfolding split
dot-not_safe name s e = (rw e at s.parts).0.ne_dot refl

-- `valid_path` accepts exactly the safe paths.
pub valid_path_iff : (name : Text) → (valid_path name ≡ ok tt) ↔ IsSafePath name
unfolding valid_path
valid_path_iff name = (
  λ h. record {
    encoded = ground arith;
    short = ground arith;
    portable = ground arith;
    parts = (parts_iff (split slash name)).0 (ground arith, ground arith);
  },
  λ s.
      let p = (parts_iff (split slash name)).1 s.parts in
      ground (arith, dot-not_safe name s, s.encoded, s.short, s.portable),
)

-- Where a path leads from a directory, by the meaning of "", "." and "..": `none` is above the root.
pub resolve : List Text → List Text → Option (List Text)
resolve dir [] = some dir
resolve dir (part ∷ parts) =
    let below = resolve (part ∷ dir) parts in
    let here = resolve dir parts in
    let above : Option (List Text) = elim dir [ [] ↦ none | _ ∷ up ↦ resolve up parts ] in
    if part == [] || part == codes "." then here else if part == codes ".." then above else below

resolve_safe :
    (dir parts : List Text) → All IsSafePart parts → resolve dir parts ≡ some (reverse parts ++ dir)
unfolding resolve
resolve_safe dir [] s = refl
resolve_safe dir (part ∷ parts) (p, s) =
    let step : resolve dir (part ∷ parts) ≡ resolve (part ∷ dir) parts =
      ground (arith, p.ne_empty, p.ne_dot, p.ne_dot_dot) in
    step
    ∙ resolve_safe (part ∷ dir) parts s
    ∙ ap some (sym (append_assoc (reverse parts) (part ∷ []) dir))
    ∙ ap (λ r. some (r ++ dir)) (sym (reverse-append (part ∷ []) parts))

-- An accepted path never climbs: from any directory it leads to the directory's own descendant of
-- exactly the path's elements.
pub valid_path-resolve :
    (name : Text) (dir : List Text)
    → valid_path name ≡ ok tt
    → resolve dir (split slash name) ≡ some (reverse (split slash name) ++ dir)
valid_path-resolve name dir h =
    resolve_safe dir (split slash name) ((valid_path_iff name).0 h).parts
