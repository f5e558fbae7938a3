-- ===== src/Text.antt =====
-- Go strings as their bytes, and what the code uses of the packages strings and unicode/utf8.
pub mod Split
pub mod Trim
pub mod Cut
use Prim.Native.Char.{code}
use Prim.Native.String.{String}
use backuply.Base.{
  ℕ, zero, suc, ◌+◌, ◌≡◌, refl, Bool, true, false, ◌&&◌, Option, none, some, List, [], ◌∷◌, ◌++◌,
  leb, ltb, ◌=ℕ◌, if◌then◌else◌, any,
}

abbrev pub Text : Type 0
Text = List ℕ

-- The bytes of a literal, which is ASCII wherever this is used.
abbrev pub codes : String → Text
codes String.[] = []
codes (String.◌∷◌ c s) = code c ∷ codes s

abbrev pub within : ℕ → ℕ → ℕ → Bool
within lo hi c = leb lo c && leb c hi

-- strings.HasPrefix
unfoldable pub has_prefix : Text → Text → Bool
has_prefix s [] = true
has_prefix [] (p ∷ ps) = false
has_prefix (c ∷ cs) (p ∷ ps) = c =ℕ p && has_prefix cs ps

-- strings.ContainsAny, for a set of ASCII characters
unfoldable pub contains_any : Text → List ℕ → Bool
contains_any s set = any (λ c. any (λ d. c =ℕ d) set) s

-- strings.ToLower on ASCII text; other text is never compared with it by this program.
unfoldable pub lower_byte : ℕ → ℕ
lower_byte c = if within b'A' b'Z' c then c + 32 else c

-- After a lead byte: how many bytes follow it, and the range of the first of them.
unfoldable pub utf8_lead : ℕ → Option (ℕ × ℕ × ℕ)
utf8_lead c =
    if ltb c 0x80
    then some (0, 0x80, 0xbf)
    else if within 0xc2 0xdf c
    then some (1, 0x80, 0xbf)
    else if c =ℕ 0xe0
    then some (2, 0xa0, 0xbf)
    else if c =ℕ 0xed
    then some (2, 0x80, 0x9f)
    else if within 0xe1 0xef c
    then some (2, 0x80, 0xbf)
    else if c =ℕ 0xf0
    then some (3, 0x90, 0xbf)
    else if within 0xf1 0xf3 c
    then some (3, 0x80, 0xbf)
    else if c =ℕ 0xf4
    then some (3, 0x80, 0x8f)
    else none

utf8_run : ℕ → ℕ → ℕ → Text → Bool
utf8_run zero lo hi [] = true
utf8_run (suc n) lo hi [] = false
utf8_run zero lo hi (c ∷ cs) = elim (utf8_lead c) [
  | none ↦ false
  | some (n, l, h) ↦ utf8_run n l h cs
]
utf8_run (suc n) lo hi (c ∷ cs) = within lo hi c && utf8_run n 0x80 0xbf cs

-- utf8.ValidString
unfoldable pub valid_utf8 : Text → Bool
unfolding utf8_run utf8_lead
valid_utf8 = utf8_run 0 0x80 0xbf

valid_utf8_runs : valid_utf8 (codes "a/b" ++ (0xd0 ∷ 0xbf ∷ [])) ≡ true
unfolding valid_utf8
valid_utf8_runs = refl
