-- ===== src/Store/Validate.antt =====
-- `validHash` and `ValidateEntry` of internal/store/files.go.
pub mod Layout
pub mod Exact
use backuply.Base.{
  ℕ, ◌+◌, ◌-◌, ◌/◌, ◌≡◌, refl, Bool, true, false, not, ◌&&◌, ◌||◌, List, [], ◌∷◌, leb, ltb, ◌=ℕ◌,
  length, min, all, text_eq, ◌==◌, if◌then◌else◌,
}
use mathlib.Core.List.{map}
use backuply.Base.Int.{ℤ, pos, negsuc}
use backuply.Base.Result.{err, ◌>>=◌, ◌>>◌, guard}
use backuply.Text.{Text, codes, within, lower_byte}
use backuply.Model.{Block, Entry, block_size, file, directory}
use backuply.Store.Limits.{max_file_size}
use backuply.Store.Error.{
  Check, bad_permissions, bad_directory, bad_file, bad_block_count, bad_block_layout,
}
use backuply.Store.Path.{valid_path}

-- a digit that encoding/hex reads
hex_digit : ℕ → Bool
hex_digit c = within b'0' b'9' c || within b'a' b'f' c || within b'A' b'F' c

-- `len(h) == 64`, which is even, is tested first: DecodeString can fail on a byte alone.
unfoldable pub valid_hash : Text → Bool
unfolding hex_digit lower_byte
valid_hash h = length h =ℕ 64 && map lower_byte h == h && all hex_digit h

abbrev pub is_pos : ℤ → ℕ → Bool
is_pos (pos n) m = n =ℕ m
is_pos (negsuc n) m = false

-- The loop over the blocks of a file of `size` bytes, from `offset`, which never passes `size`.
unfoldable pub valid_layout : ℕ → ℕ → List Block → Bool
valid_layout size offset [] = true
valid_layout size offset (b ∷ bs) =
    let n = min block_size (size - offset) in
    is_pos b.offset offset
    && is_pos b.size n
    && valid_hash b.hash
    && valid_layout size (offset + n) bs

unfoldable pub valid_blocks : ℕ → List Block → Check
unfolding valid_layout
valid_blocks size blocks = do
  guard (length blocks =ℕ (size + block_size - 1) / block_size) bad_block_count
  guard (valid_layout size 0 blocks) bad_block_layout

-- `e.Size < 0 || e.Size > MaxFileSize`, then the blocks
unfoldable pub valid_file : ℤ → Entry → Check
unfolding valid_blocks
valid_file (negsuc n) e = err bad_file
valid_file (pos n) e = do
  guard (e.kind == file && leb n max_file_size && valid_hash e.hash) bad_file
  valid_blocks n e.blocks

-- `e.Mode & ^uint32(0777)` holds the bits above the low nine.
unfoldable pub validate_entry : Entry → Check
unfolding valid_file
validate_entry e = do
  valid_path e.path
  guard (e.mode / 512 =ℕ 0) bad_permissions
  if e.kind == directory
      then guard (is_pos e.size 0 && e.hash == [] && length e.blocks =ℕ 0) bad_directory
      else valid_file e.size e
