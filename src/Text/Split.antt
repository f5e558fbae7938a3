-- ===== src/Text/Split.antt =====
-- strings.Split and strings.Join at a separator of one byte, and that they are inverse.
use backuply.Base.{
  ℕ, ◌≡◌, ◌≢◌, refl, sym, ap, arith, inl, inr, List, [], ◌∷◌, ◌++◌, ◌=ℕ◌, =ℕ_iff, if◌then◌else◌,
  All, Bool-cases,
}

abbrev cons_head : ℕ → List (List ℕ) → List (List ℕ)
cons_head c [] = (c ∷ []) ∷ []
cons_head c (w ∷ ws) = (c ∷ w) ∷ ws

unfoldable pub split : ℕ → List ℕ → List (List ℕ)
split sep [] = [] ∷ []
split sep (c ∷ cs) = let rest = split sep cs in if c =ℕ sep then [] ∷ rest else cons_head c rest

unfoldable pub join : ℕ → List (List ℕ) → List ℕ
join sep [] = []
join sep (w ∷ []) = w
join sep (w ∷ v ∷ ws) = w ++ sep ∷ join sep (v ∷ ws)

abbrev pub Lacks : ℕ → List ℕ → Type 0
Lacks sep = All (λ c. c ≢ sep)

pub split-ne-nil : (sep : ℕ) (s : List ℕ) → split sep s ≢ []
unfolding split
split-ne-nil sep [] = ground arith
split-ne-nil sep (c ∷ cs) = ground arith

join-cons_nil : (sep : ℕ) (ws : List (List ℕ)) → ws ≢ [] → join sep ([] ∷ ws) ≡ sep ∷ join sep ws
unfolding join
join-cons_nil sep [] h = absurd (h refl)
join-cons_nil sep (w ∷ ws) h = refl

join-cons_head :
    (sep c : ℕ) (ws : List (List ℕ)) → ws ≢ [] → join sep (cons_head c ws) ≡ c ∷ join sep ws
unfolding join
join-cons_head sep c [] h = absurd (h refl)
join-cons_head sep c (w ∷ []) h = refl
join-cons_head sep c (w ∷ v ∷ ws) h = refl

-- Joining the parts of a text gives the text back.
pub join-split : (sep : ℕ) (s : List ℕ) → join sep (split sep s) ≡ s
unfolding split
join-split sep [] = unfold join in refl
join-split sep (c ∷ cs) = elim (Bool-cases (c =ℕ sep)) [
  | inl same ↦ rw same (
      rw (join-cons_nil sep (split sep cs) (split-ne-nil sep cs), join-split sep cs)
        (ap (λ x. x ∷ cs) (sym ((=ℕ_iff c sep).0 same))))
  | inr other ↦
      rw other (rw (join-cons_head sep c (split sep cs) (split-ne-nil sep cs), join-split sep cs))
]

Lacks-cons_head :
    (sep c : ℕ) (ws : List (List ℕ))
    → c ≢ sep
    → All (Lacks sep) ws
    → All (Lacks sep) (cons_head c ws)
Lacks-cons_head sep c [] h hs = ((h, tt), tt)
Lacks-cons_head sep c (w ∷ ws) h (hw, hs) = ((h, hw), hs)

-- No part holds the separator.
pub split-Lacks : (sep : ℕ) (s : List ℕ) → All (Lacks sep) (split sep s)
unfolding split
split-Lacks sep [] = (tt, tt)
split-Lacks sep (c ∷ cs) = elim (Bool-cases (c =ℕ sep)) [
  | inl same ↦ rw same (tt, split-Lacks sep cs)
  | inr other ↦ rw other (Lacks-cons_head sep c (split sep cs) (ground arith) (split-Lacks sep cs))
]
