-- ===== src/Store/Fingerprint.antt =====
-- `fingerprint` of internal/store/files.go.
pub mod Reads
pub mod Exact
pub mod Untouched
use backuply.Base.{
  ℕ, zero, suc, ◌+◌, ◌-◌, ◌/◌, Bool, true, false, ◌&&◌, List, [], ◌∷◌, ◌++◌, ◌=ℕ◌, ltb, leb, min,
  length, text_eq, if◌then◌else◌,
}
use backuply.Base.Int.{pos}
use backuply.Text.{Text, codes}
use backuply.Text.Split.{split}
use backuply.Model.{Block, Entry, block_size, file}
use backuply.Store.Limits.{max_file_size}
use backuply.Store.Error.{unsupported_file, changed_while_reading}
use backuply.Store.Path.{slash}
use backuply.Store.Codec.{Codec}
use backuply.Store.Disk.{Volume, Node, Handle}
use backuply.Store.Exec.{Exec, pure, fail, ◌>>=◌, ◌>>◌, require, step}
use backuply.Store.Root.{lstat, open_file, stat, read_at}
use backuply.Store.Folder.{is_regular, check_components}

-- What the reading loop gathers: all bytes read, which `full` hashes, and the blocks.
pub record Reading : Type 0 where
  pub content : Text
  pub blocks : List Block

module _ (c : Codec) where
  -- `for offset < size`, with fuel; `block_count size` rounds read the whole file.
  unfoldable pub read_blocks : ℕ → Handle → ℕ → ℕ → Reading → Exec Reading
  read_blocks zero f size offset acc = pure acc
  read_blocks (suc k) f size offset acc =
      let n = min block_size (size - offset) in
      let round : Exec Reading = (do
        step
        buf ← read_at f n offset
        read_blocks k f size (offset + n) (record {
          content = acc.content ++ buf;
          blocks =
              acc.blocks
              ++ record { offset = pos offset; size = pos n; hash = c.hash_bytes buf } ∷ [];
        })) in
      if ltb offset size then round else pure acc

  same_file : Node → Node → Node → Bool
  same_file before after current =
      length before.bytes =ℕ length after.bytes
      && before.mtime =ℕ after.mtime
      && before.inode =ℕ current.inode

  unfoldable pub fingerprint : Volume → Text → Exec Entry
  unfolding same_file
  fingerprint v name = do
    check_components v name false
    f ← open_file v (split slash name)
    before ← stat f
    let size = length before.bytes
    require (is_regular before.kind && leb size max_file_size) unsupported_file
    r ←
        read_blocks ((size + block_size - 1) / block_size) f size 0
          (record { content = []; blocks = [] })
    after ← stat f
    current ← lstat v (split slash name)
    require (same_file before after current) changed_while_reading
    pure (record {
      path = name;
      kind = file;
      size = pos size;
      mode = before.mode;
      hash = c.hash_bytes r.content;
      blocks = r.blocks;
    })
