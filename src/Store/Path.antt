-- ===== src/Store/Path.antt =====
-- `validPath` of internal/store/files.go.
pub mod Safe
use backuply.Base.{
  ℕ, ◌≡◌, refl, Bool, true, not, ◌&&◌, ◌||◌, List, [], ◌∷◌, ltb, length, any, text_eq, ◌==◌,
  if◌then◌else◌,
}
use backuply.Base.Result.{ok, err}
use backuply.Text.{Text, codes, has_prefix, contains_any, valid_utf8}
use backuply.Text.Split.{split}
use backuply.Store.Limits.{marker_name, temp_prefix}
use backuply.Store.Error.{Check, invalid_path, reserved_path}

abbrev pub slash : ℕ
slash = b'/'

-- io/fs.ValidPath: UTF-8, and "." or no element that is empty, "." or "..".
plain_element : Text → Bool
plain_element part = not (part == [] || part == codes "." || part == codes "..")

unfoldable pub all_plain : List Text → Bool
unfolding plain_element
all_plain [] = true
all_plain (part ∷ parts) = plain_element part && all_plain parts

fs_valid_path : Text → Bool
unfolding all_plain
fs_valid_path name = valid_utf8 name && (name == codes "." || all_plain (split slash name))

-- A name that the service keeps for itself.
unfoldable pub reserved : Text → Bool
reserved part = part == marker_name || has_prefix part temp_prefix

-- Windows separators and the null byte
abbrev forbidden : List ℕ
forbidden = b'\\' ∷ b':' ∷ 0 ∷ []

unfoldable pub valid_path : Text → Check
unfolding fs_valid_path
valid_path name =
    if name == codes "."
      || ltb 4096 (length name)
      || not (fs_valid_path name)
      || contains_any name forbidden
    then err invalid_path
    else if any reserved (split slash name)
    then err reserved_path
    else ok tt

valid_path_runs :
    (valid_path (codes "a/b.txt") ≡ ok tt)
    × (valid_path (codes "../x") ≡ err invalid_path)
    × (valid_path (codes "a//b") ≡ err invalid_path)
    × (valid_path (codes "C:\\x") ≡ err invalid_path)
    × (valid_path (codes "a/.backuply-tmp-0") ≡ err reserved_path)
unfolding valid_path reserved text_eq valid_utf8 has_prefix contains_any split
valid_path_runs = (refl, refl, refl, refl, refl)
