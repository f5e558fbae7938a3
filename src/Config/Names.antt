-- ===== src/Config/Names.antt =====
-- The three patterns of internal/config/config.go.
use backuply.Base.{
  ℕ, ◌≡◌, refl, Bool, false, ◌&&◌, ◌||◌, Option, none, some, [], ◌∷◌, ◌=ℕ◌, all, length, text_eq,
  drop, if◌then◌else◌,
}
use backuply.Text.{Text, codes, within, has_prefix}
use backuply.Text.Cut.{unsnoc}

abbrev alphanumeric : ℕ → Bool
alphanumeric c = within b'A' b'Z' c || within b'a' b'z' c || within b'0' b'9' c

abbrev name_char : ℕ → Bool
name_char c = alphanumeric c || c =ℕ b'_' || c =ℕ b'.' || c =ℕ b'-'

-- `namePattern`
unfoldable pub is_name : Text → Bool
is_name [] = false
is_name (c ∷ cs) = alphanumeric c && all name_char cs

-- `idPattern`
unfoldable pub is_device_id : Text → Bool
is_device_id s = length s =ℕ 64 && all (λ c. within b'0' b'9' c || within b'a' b'f' c) s

-- A name in front of the quotation mark that ends the text
quoted_name : Text → Text → Option (Text × Text)
quoted_name kind rest = elim (unsnoc rest) [
  | none ↦ none
  | some (name, last) ↦ if last =ℕ b'"' && is_name name then some (kind, name) else none
]

-- `sectionPattern`: the kind and the name of a section
unfoldable pub match_section : Text → Option (Text × Text)
unfolding quoted_name
match_section header =
    if has_prefix header (codes "peer \"")
    then quoted_name (codes "peer") (drop 6 header)
    else if has_prefix header (codes "folder \"")
    then quoted_name (codes "folder") (drop 8 header)
    else none

match_section_runs :
    (match_section (codes "peer \"box-1\"") ≡ some (codes "peer", codes "box-1"))
    × (match_section (codes "folder \"\"") ≡ none)
    × (match_section (codes "peer \"a b\"") ≡ none)
unfolding match_section is_name has_prefix unsnoc
match_section_runs = (refl, refl, refl)
