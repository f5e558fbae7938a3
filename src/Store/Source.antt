-- ===== src/Store/Source.antt =====
-- `ReadBlock` of internal/store/scan.go.
pub mod Sound
use backuply.Base.{
  ℕ, ◌/◌, ◌%◌, Bool, true, false, ◌&&◌, Option, none, some, List, [], ◌=ℕ◌, get_elem?, length,
  text_eq, ◌==◌, if◌then◌else◌,
}
use backuply.Base.Int.{ℤ, pos, negsuc}
use backuply.Text.{Text}
use backuply.Text.Split.{split}
use backuply.Model.{Block, Entry, block_size, block_eq, file}
use backuply.Store.Error.{stale_request, not_in_manifest, source_changed, source_block_changed}
use backuply.Store.Path.{slash, valid_path}
use backuply.Store.Validate.{is_pos, validate_entry}
use backuply.Store.Codec.{Codec}
use backuply.Store.Exec.{Exec, pure, fail, lift, ◌>>=◌, ◌>>◌, require, step}
use backuply.Store.Root.{open_file, stat, read_at}
use backuply.Store.Folder.{is_regular, open_folder, check_components}
use backuply.Store.Apply.{get, bytes_of_size}

-- `b.Offset < 0 || b.Offset%model.BlockSize != 0`
abbrev pub aligned : ℤ → Bool
aligned (pos n) = n % block_size =ℕ 0
aligned (negsuc n) = false

-- `i < int64(len(e.Blocks)) && e.Blocks[i] == b`
unfoldable pub is_indexed : Entry → Block → Bool
is_indexed e b = elim (get_elem? e.blocks (bytes_of_size b.offset / block_size)) [
  | none ↦ false
  | some indexed ↦ indexed == b
]

module _ (c : Codec) where
  -- From the indexed entry to the data
  unfoldable pub read_indexed : Text → Text → Text → Entry → Block → Exec Text
  read_indexed folder root name e b = do
    v ← open_folder root folder
    check_components v name false
    f ← open_file v (split slash name)
    info ← stat f
    require (is_regular info.kind && is_pos e.size (length info.bytes)) source_changed
    data' ← read_at f (bytes_of_size b.size) (bytes_of_size b.offset)
    require (c.hash_bytes data' == b.hash) source_block_changed
    pure data'

  unfoldable pub read_block : Text → Text → Text → Text → Block → Exec Text
  read_block folder root name entry_hash b = do
    lift (valid_path name)
    step
    e ← get c folder name
    lift (validate_entry e)
    require (e.kind == file && e.hash == entry_hash && aligned b.offset) stale_request
    require (is_indexed e b) not_in_manifest
    read_indexed folder root name e b
