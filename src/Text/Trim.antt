-- ===== src/Text/Trim.antt =====
-- strings.TrimSpace: white space of Unicode, in its UTF-8 form, goes at both ends.
use mathlib.Core.List.{reverse}
use backuply.Base.{ℕ, zero, suc, ◌≡◌, refl, Bool, ◌&&◌, ◌||◌, [], ◌∷◌, ◌++◌, ◌=ℕ◌, if◌then◌else◌}
use backuply.Text.{Text, codes, within}

ascii_space : ℕ → Bool
ascii_space c = within 9 13 c || c =ℕ b' '

-- U+0085 and U+00A0
two_byte_space : ℕ → ℕ → Bool
two_byte_space a b = a =ℕ 0xc2 && (b =ℕ 0x85 || b =ℕ 0xa0)

-- U+1680, U+2000 to U+200A, U+2028, U+2029, U+202F, U+205F and U+3000
three_byte_space : ℕ → ℕ → ℕ → Bool
three_byte_space a b c =
    (a =ℕ 0xe1 && b =ℕ 0x9a && c =ℕ 0x80)
    || (a =ℕ 0xe2 && b =ℕ 0x80 && (within 0x80 0x8a c || within 0xa8 0xa9 c || c =ℕ 0xaf))
    || (a =ℕ 0xe2 && b =ℕ 0x81 && c =ℕ 0x9f)
    || (a =ℕ 0xe3 && b =ℕ 0x80 && c =ℕ 0x80)

-- How many bytes behind the first belong to a space at the start, and 1 more; 0 if there is none
space_at_start : Text → ℕ
unfolding ascii_space two_byte_space three_byte_space
space_at_start [] = 0
space_at_start (a ∷ []) = if ascii_space a then 1 else 0
space_at_start (a ∷ b ∷ []) = if ascii_space a then 1 else if two_byte_space a b then 2 else 0
space_at_start (a ∷ b ∷ c ∷ rest) =
    if ascii_space a
    then 1
    else if two_byte_space a b
    then 2
    else if three_byte_space a b c
    then 3
    else 0

-- The same for the text read backwards
space_at_end : Text → ℕ
unfolding ascii_space two_byte_space three_byte_space
space_at_end [] = 0
space_at_end (a ∷ []) = if ascii_space a then 1 else 0
space_at_end (a ∷ b ∷ []) = if ascii_space a then 1 else if two_byte_space b a then 2 else 0
space_at_end (a ∷ b ∷ c ∷ rest) =
    if ascii_space a
    then 1
    else if two_byte_space b a
    then 2
    else if three_byte_space c b a
    then 3
    else 0

-- Drop spaces at the start, once the given number of bytes is gone.
unfoldable pub drop_spaces : (Text → ℕ) → ℕ → Text → Text
drop_spaces space k [] = []
drop_spaces space (suc k) (c ∷ cs) = drop_spaces space k cs
drop_spaces space zero (c ∷ cs) = elim (space (c ∷ cs)) [
  | zero ↦ c ∷ cs
  | suc k ↦ drop_spaces space k cs
]

unfoldable pub trim_space : Text → Text
unfolding drop_spaces space_at_start space_at_end
trim_space s = reverse (drop_spaces space_at_end 0 (reverse (drop_spaces space_at_start 0 s)))

trim_space_runs :
    (trim_space (codes "  a b ") ≡ codes "a b")
    × (trim_space (0xc2 ∷ 0xa0 ∷ codes "x" ++ (0xe2 ∷ 0x80 ∷ 0xa9 ∷ [])) ≡ codes "x")
    × (trim_space (codes " ") ≡ [])
unfolding trim_space
trim_space_runs = (refl, refl, refl)
