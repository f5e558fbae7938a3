-- ===== src/Config/Paths/Below.antt =====
-- `containsPath` tells whether one path is the other or below it.
use backuply.Base.{
  ◌≡◌, ◌≢◌, ◌↔◌, inl, inr, refl, ap, arith, true, false, ◌&&◌, not, List, [], ◌∷◌, ◌++◌, text_eq,
  ◌==◌, ==_iff, Bool-cases, All,
}
use backuply.Text.{Text, codes, has_prefix}
use backuply.Text.Split.{join, Lacks}
use backuply.Store.Path.{slash}
use backuply.Config.Paths.{ups, relative, rel_text, contains_path}

-- A path, and what is below it.
abbrev pub IsBelow : List Text → List Text → Type 0
IsBelow p q = (rest : List Text) × (q ≡ p ++ rest)

-- An element of a path that is clean
pub record IsPlain (part : Text) : Type 0 where
  pub ne_dot_dot : part ≢ codes ".."
  pub lacks : Lacks slash part

-- How the two paths stand to each other, as `relative` shows it
data IsRelative (p q : List Text) : List Text → Type 0 where
  below : (rest : List Text) → q ≡ p ++ rest → IsRelative p q rest
  apart : (more : List Text) → ¬ IsBelow p q → IsRelative p q (codes ".." ∷ more)

IsRelative-cons :
    (part : Text) (p q r : List Text) → IsRelative p q r → IsRelative (part ∷ p) (part ∷ q) r
IsRelative-cons part p q r (below rest e) = below rest (ap (λ x. part ∷ x) e)
IsRelative-cons part p q r (apart more h) = apart more (λ b. h (b.0, ground (arith, b.1)))

relative-IsRelative : (p q : List Text) → IsRelative p q (relative p q)
unfolding relative
relative-IsRelative [] q = below q refl
relative-IsRelative (b ∷ base) [] = apart (ups base) (λ h. ground (arith, h.1))
relative-IsRelative (b ∷ base) (t ∷ target) = elim (Bool-cases (b == t)) [
  | inl same ↦
      let e = (==_iff b t).0 same in
      rw same (rw e (IsRelative-cons t base target _ (relative-IsRelative base target)))
  | inr other ↦ rw other (apart (ups base ++ t ∷ target) (λ h. ground (arith, h.1, ==_iff b t)))
]

-- A text that starts like a step back is one, if its first element is whole.
back_prefix :
    (w r : Text) → Lacks slash w → has_prefix (w ++ slash ∷ r) (codes "../") ≡ true → w ≡ codes ".."
unfolding has_prefix
back_prefix [] r l h = ground arith
back_prefix (a ∷ []) r l h = ground arith
back_prefix (a ∷ b ∷ []) r l h = ground arith
back_prefix (a ∷ b ∷ c ∷ w) r l h = ground (arith, l)

Lacks-back_prefix : (w : Text) → Lacks slash w → has_prefix w (codes "../") ≡ false
unfolding has_prefix
Lacks-back_prefix [] l = refl
Lacks-back_prefix (a ∷ []) l = ground arith
Lacks-back_prefix (a ∷ b ∷ []) l = ground arith
Lacks-back_prefix (a ∷ b ∷ c ∷ w) l = ground (arith, l)

slash-ne-dot_dot : (w r : Text) → w ++ slash ∷ r ≢ codes ".."
slash-ne-dot_dot [] r e = ground (arith, e)
slash-ne-dot_dot (a ∷ []) r e = ground (arith, e)
slash-ne-dot_dot (a ∷ b ∷ w) r e = nil_append w (ground (arith, e))
  where
    nil_append : (w : Text) → w ++ slash ∷ r ≢ []
    nil_append [] h = cc
    nil_append (x ∷ w) h = cc

no_step_back :
    (rest : List Text)
    → All IsPlain rest
    → (not (rel_text rest == codes "..") && not (has_prefix (rel_text rest) (codes "../"))) ≡ true
unfolding rel_text join
no_step_back [] h = unfold has_prefix in ground arith
no_step_back (w ∷ []) h = ground (arith, h.0.ne_dot_dot, Lacks-back_prefix w h.0.lacks)
no_step_back (w ∷ v ∷ ws) h = ground (
  arith,
  slash-ne-dot_dot w (join slash (v ∷ ws)),
  back_prefix w (join slash (v ∷ ws)) h.0.lacks,
  h.0.ne_dot_dot,
)

All-suffix : (p rest : List Text) → All IsPlain (p ++ rest) → All IsPlain rest
All-suffix [] rest h = h
All-suffix (x ∷ p) rest h = All-suffix p rest h.1

step_back :
    (more : List Text)
    → (not (rel_text (codes ".." ∷ more) == codes "..")
        && not (has_prefix (rel_text (codes ".." ∷ more)) (codes "../")))
      ≡ false
unfolding rel_text join has_prefix
step_back [] = ground arith
step_back (w ∷ ws) = ground arith

contains_path_lem :
    (p q r : List Text)
    → relative p q ≡ r
    → IsRelative p q r
    → All IsPlain q
    → (contains_path p q ≡ true) ↔ IsBelow p q
unfolding contains_path
contains_path_lem p q r e (below rest b) plain =
    (λ _. (rest, b), λ _. rw e (no_step_back rest (All-suffix p rest (rw b at plain))))
contains_path_lem p q r e (apart more h) plain =
    (λ t. let k = rw e at t in cc (step_back more), λ b. absurd (h b))

-- One path contains another, whose elements are plain, exactly if the other is the path itself or
-- something below it.
pub contains_path_iff : (p q : List Text) → All IsPlain q → (contains_path p q ≡ true) ↔ IsBelow p q
contains_path_iff p q plain =
    contains_path_lem p q (relative p q) refl (relative-IsRelative p q) plain
