-- ===== src/Store/Fingerprint/Exact.antt =====
-- On a quiet disk `fingerprint` describes the file that stands at the path: its size, permissions,
-- blocks and checksums.
use backuply.Base.{
  ℕ, zero, suc, ◌+◌, ◌-◌, ◌*◌, ◌/◌, ◌≤◌, ◌≡◌, refl, sym, arith, true, false, some, List, [], ◌∷◌,
  ◌++◌, append-nil, append_assoc, length, take, drop, drop-all, drop-drop, take-append-drop, ltb,
  min, if◌then◌else◌, Bool-cases, inl, inr,
}
use backuply.Base.Int.{pos}
use backuply.Text.{Text}
use backuply.Text.Split.{split}
use backuply.Model.{Block, Entry, block_size, file}
use backuply.Base.Result.{ok}
use backuply.Store.Path.{slash}
use backuply.Store.Codec.{Codec}
use backuply.Store.Disk.{Volume, FilePath, Node, node_at}
use backuply.Store.Exec.{World}
use backuply.Store.Exec.Keeps.{
  IsQuiet, Triple, On, Keeps-step, Keeps-if, Keeps-pure, Keeps-fail, Triple-after, Triple-pure,
  Triple-if,
}
use backuply.Store.Root.Values.{
  Gives, Triple-known, Gives-eq, D, handle, Triple-lstat, Triple-open_file, Triple-stat,
  Triple-read_at,
}
use backuply.Store.Folder.Reads.{Keeps-check_components}
use backuply.Store.Fingerprint.{Reading, read_blocks, same_file, fingerprint}

-- What stands in a block of some bytes.
abbrev pub chunk : Text → ℕ → ℕ → Text
chunk bytes offset n = take n (drop offset bytes)

module _ (c : Codec) where
  -- The blocks of some bytes from an offset, at most `k`
  unfoldable pub cut : ℕ → Text → ℕ → List Block
  cut zero bytes offset = []
  cut (suc k) bytes offset =
      let n = min block_size (length bytes - offset) in
      let rest = cut k bytes (offset + n) in
      if ltb offset (length bytes)
      then record { offset = pos offset; size = pos n; hash = c.hash_bytes (chunk bytes offset n) }
        ∷ rest
      else []

  -- The entry of a file
  unfoldable pub describe : Text → Node → Entry
  describe name n = record {
    path = name;
    kind = file;
    size = pos (length n.bytes);
    mode = n.mode;
    hash = c.hash_bytes n.bytes;
    blocks = cut ((length n.bytes + block_size - 1) / block_size) n.bytes 0;
  }

abbrev start : Reading
start = record { content = []; blocks = [] }

-- What the loop adds to what it has read
contents : Text → ℕ → ℕ → Text
contents bytes zero offset = []
contents bytes (suc k) offset =
    let n = min block_size (length bytes - offset) in
    let rest = contents bytes k (offset + n) in
    if ltb offset (length bytes) then chunk bytes offset n ++ rest else []

-- Enough rounds read all that is left.
contents-drop :
    (bytes : Text) (k offset : ℕ)
    → length bytes ≤ offset + k * block_size
    → contents bytes k offset ≡ drop offset bytes
unfolding contents
contents-drop bytes zero offset h = sym (drop-all offset bytes (omega arith))
contents-drop bytes (suc k) offset h = elim (Bool-cases (ltb offset (length bytes))) [
  | inl more ↦
      let n = min block_size (length bytes - offset) in
      rw (more, contents-drop bytes k (offset + n) (ground arith))
        (rw (← drop-drop offset n (offset + n) bytes refl) (take-append-drop n (drop offset bytes)))
  | inr done ↦ rw done (sym (drop-all offset bytes (ground arith)))
]

module _ (c : Codec) (v : Volume) (p : FilePath) (n0 : Node) where
  abbrev extended : ℕ → ℕ → Reading → Reading
  extended k offset acc = record {
    content = acc.content ++ contents n0.bytes k offset;
    blocks = acc.blocks ++ cut c k n0.bytes offset;
  }

  abbrev next : ℕ → Reading → Reading
  next offset acc =
      let n = min block_size (length n0.bytes - offset) in
      let buf = chunk n0.bytes offset n in
      record {
        content = acc.content ++ buf;
        blocks =
            acc.blocks
            ++ record { offset = pos offset; size = pos n; hash = c.hash_bytes buf } ∷ [];
      }

  -- One round reads its chunk
  extended_step :
      (k offset : ℕ) (acc : Reading)
      → ltb offset (length n0.bytes) ≡ true
      → extended k (offset + min block_size (length n0.bytes - offset)) (next offset acc)
        ≡ extended (suc k) offset acc
  unfolding contents cut
  extended_step k offset acc h = rw (h, append_assoc, append_assoc)

  extended_end :
      (k offset : ℕ) (acc : Reading)
      → ltb offset (length n0.bytes) ≡ false
      → acc ≡ extended k offset acc
  unfolding contents cut
  extended_end zero offset acc h = rw (append-nil, append-nil)
  extended_end (suc k) offset acc h = rw (h, append-nil, append-nil)

  Triple-read_blocks :
      (k offset : ℕ) (acc : Reading)
      → Triple
          (On (D v p n0))
          (read_blocks c k (handle v p n0) (length n0.bytes) offset acc)
          (Gives (D v p n0) (extended k offset acc))
          (On (D v p n0))
  unfolding read_blocks
  Triple-read_blocks zero offset acc =
      Triple-pure acc
        (λ w h. record { on = h; value = unfold contents cut in rw (append-nil, append-nil) })
  Triple-read_blocks (suc k) offset acc =
      Triple-if (ltb offset (length n0.bytes)) _ _
        (λ more. Triple-after Keeps-step (λ _. Triple-known _ (Triple-read_at v p n0 _ offset) (
          Gives-eq (extended_step k offset acc more) (
            Triple-read_blocks k (offset + min block_size (length n0.bytes - offset))
              (next offset acc)))))
        (λ done.
          Triple-pure acc (λ w h. record { on = h; value = extended_end (suc k) offset acc done }))

  all_read : extended ((length n0.bytes + block_size - 1) / block_size) 0 start ≡ record {
    content = n0.bytes;
    blocks = cut c ((length n0.bytes + block_size - 1) / block_size) n0.bytes 0;
  }
  all_read =
      rw (contents-drop n0.bytes ((length n0.bytes + block_size - 1) / block_size) 0 (omega arith))

module _ (c : Codec) (v : Volume) (name : Text) (n0 : Node) where
  same_file_self : same_file c n0 n0 n0 ≡ true
  unfolding same_file
  same_file_self = ground arith

  -- A fingerprint that is returned describes the file that stands at the path.
  pub Triple-fingerprint :
      Triple
        (On (D v (split slash name) n0))
        (fingerprint c v name)
        (Gives (D v (split slash name) n0) (describe c name n0))
        (On (D v (split slash name) n0))
  unfolding fingerprint describe
  Triple-fingerprint = Triple-after (Keeps-check_components v name false) (λ _.
      Triple-known _ (Triple-open_file v (split slash name) n0) (
        Triple-known _ (Triple-stat v (split slash name) n0) (
          Triple-after (Keeps-if _ _ _ (Keeps-pure tt) (Keeps-fail _)) (λ _.
            Triple-known _
              (Gives-eq (all_read c v (split slash name) n0)
                (Triple-read_blocks c v (split slash name) n0 _ 0 start))
              (Triple-known _ (Triple-stat v (split slash name) n0) (
                Triple-known _ (Triple-lstat v (split slash name) n0) (
                  Triple-after (Keeps-if _ _ _ (Keeps-pure tt) (Keeps-fail _))
                    (λ _. Triple-pure _ (λ w h. record { on = h; value = refl })))))))))

-- What `fingerprint` returns, while other processes leave the folder alone, is the entry that
-- describes the file at the path: its bytes cut into blocks, with their checksums.
pub fingerprint-describe :
    (c : Codec) (v : Volume) (name : Text) (n0 : Node) (w : World) {e : Entry} {w' : World}
    → IsQuiet w
    → node_at w.disk v (split slash name) ≡ some n0
    → fingerprint c v name w ≡ (ok e, w')
    → e ≡ describe c name n0
fingerprint-describe c v name n0 w quiet there h =
    let post =
      (Triple-fingerprint c v name n0).run w
        (record { quiet = quiet; disk = record { node = there } }) in
    (rw h at post).value
