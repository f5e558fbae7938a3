-- ===== src/Config/Paths/Canonical.antt =====
-- The paths that `canonicalPath` returns are clean.
use mathlib.Core.List.{reverse}
use mathlib.Core.Path.{subst}
use backuply.Base.{
  ◌≡◌, inl, inr, arith, ◌||◌, List, [], ◌∷◌, ◌++◌, text_eq, ◌==◌, ==_iff, Bool-cases, All,
}
use backuply.Base.Result.{Result, ok, err, ok-injective, bind-eq-ok}
use backuply.Text.{Text, codes}
use backuply.Text.Split.{split, Lacks, split-Lacks}
use backuply.Store.Path.{slash}
use backuply.Config.Error.{Error}
use backuply.Config.Library.{Files, Presence, present, missing, failed}
use backuply.Config.Paths.{clean_onto, clean, canonical_path}
use backuply.Config.Paths.Below.{IsPlain}

-- filepath.EvalSymlinks returns clean paths.
pub record IsClean (files : Files) : Type 0 where
  pub resolved : (p r : List Text) → files.eval_symlinks p ≡ ok r → All IsPlain r

above-IsPlain :
    (parts up : List Text)
    → All IsPlain up
    → ((u : List Text) → All IsPlain u → All IsPlain (clean_onto u parts))
    → All IsPlain (elim up as (λ _. List Text) [
      | [] ↦ clean_onto [] parts
      | _ ∷ rest ↦ clean_onto rest parts
    ])
above-IsPlain parts [] h k = k [] tt
above-IsPlain parts (x ∷ up) h k = k up h.1

clean_onto-IsPlain :
    (up parts : List Text)
    → All IsPlain up
    → All (Lacks slash) parts
    → All IsPlain (clean_onto up parts)
unfolding clean_onto
clean_onto-IsPlain up [] h l = h
clean_onto-IsPlain up (part ∷ parts) h l = elim (Bool-cases (part == [] || part == codes ".")) [
  | inl same ↦ rw same (clean_onto-IsPlain up parts h l.1)
  | inr other ↦ rw other (elim (Bool-cases (part == codes "..")) [
    | inl back ↦ rw back (above-IsPlain parts up h (λ u k. clean_onto-IsPlain u parts k l.1))
    | inr plain ↦ rw plain (
        clean_onto-IsPlain (part ∷ up) parts
          (record { ne_dot_dot = ground (arith, ==_iff part (codes "..")); lacks = l.0 }, h) l.1)
  ])
]

pub clean-IsPlain : (path : Text) → All IsPlain (clean path)
unfolding clean
clean-IsPlain path = clean_onto-IsPlain [] (split slash path) tt (split-Lacks slash path)

All-append : (xs ys : List Text) → All IsPlain xs → All IsPlain ys → All IsPlain (xs ++ ys)
All-append [] ys h k = k
All-append (x ∷ xs) ys h k = (h.0, All-append xs ys h.1 k)

module _ (files : Files) (fine : IsClean files) where
  at_presence :
      (x : Presence) (p r : List Text) (below : Result Error (List Text))
      → ((r : List Text) → below ≡ ok r → All IsPlain r)
      → (elim x as (λ _. Result Error (List Text)) [
        | present ↦ files.eval_symlinks p
        | missing ↦ below
        | failed e ↦ err e
      ])
        ≡ ok r
      → All IsPlain r
  at_presence present p r below k h = fine.resolved p r h
  at_presence missing p r below k h = k r h
  at_presence (failed e) p r below k h = cc

  pub canonical_path-IsPlain :
      (up r : List Text) → All IsPlain up → canonical_path files up ≡ ok r → All IsPlain r
  unfolding canonical_path
  canonical_path-IsPlain [] r plain h =
      at_presence (files.lstat []) [] r (ok []) (λ r' e. subst (All IsPlain) (ok-injective e) tt) h
  canonical_path-IsPlain (name ∷ up) r plain h =
      at_presence (files.lstat (reverse (name ∷ up))) (reverse (name ∷ up)) r _
        (λ r' e.
          let (s, done, k) = bind-eq-ok (canonical_path files up) _ e in
          subst (All IsPlain) (ok-injective k)
            (All-append s (name ∷ []) (canonical_path-IsPlain up s plain.1 done) (plain.0, tt)))
        h
