-- ===== src/Text/Cut.antt =====
-- strings.Cut, strings.HasSuffix, strings.LastIndexByte and slices of a text, at single bytes.
use backuply.Base.{ℕ, ◌≡◌, refl, Bool, Option, none, some, [], ◌∷◌, ◌=ℕ◌, any, if◌then◌else◌}
use backuply.Text.{Text, codes}

-- What stands before and behind the first occurrence of a byte
unfoldable pub cut : ℕ → Text → Option (Text × Text)
cut sep [] = none
cut sep (c ∷ cs) =
    let rest = cut sep cs in
    if c =ℕ sep then some ([], cs) else elim rest [ none ↦ none | some (a, b) ↦ some (c ∷ a, b) ]

-- What stands before and behind the last occurrence of a byte
unfoldable pub cut_last : ℕ → Text → Option (Text × Text)
cut_last sep [] = none
cut_last sep (c ∷ cs) = elim (cut_last sep cs) [
  | some (a, b) ↦ some (c ∷ a, b)
  | none ↦ if c =ℕ sep then some ([], cs) else none
]

abbrev pub holds : ℕ → Text → Bool
holds c = any (λ x. x =ℕ c)

-- `s[:len(s)-1]`, and the last byte
unfoldable pub unsnoc : Text → Option (Text × ℕ)
unsnoc [] = none
unsnoc (c ∷ []) = some ([], c)
unsnoc (c ∷ d ∷ cs) = elim (unsnoc (d ∷ cs)) [ none ↦ none | some (a, z) ↦ some (c ∷ a, z) ]

cut_runs :
    (cut b'=' (codes "a=b=c") ≡ some (codes "a", codes "b=c"))
    × (cut_last b'=' (codes "a=b=c") ≡ some (codes "a=b", codes "c"))
    × (unsnoc (codes "ab]") ≡ some (codes "ab", b']'))
unfolding cut cut_last unsnoc
cut_runs = (refl, refl, refl)
