-- ===== src/Store/Validate/Exact.antt =====
-- `ValidateEntry` accepts exactly the entries that describe a directory, or a file cut into blocks.
use backuply.Base.{
  ℕ, ◌*◌, ◌≤◌, ◌<◌, ◌≡◌, ◌↔◌, ◌⊎◌, inl, inr, refl, arith, true, List, [], ◌∷◌, length, min, text_eq,
  ◌==◌, ==_iff, ◌=ℕ◌, ◌&&◌, ◌≢◌, Bool-cases, if◌then◌else◌,
}
use backuply.Base.Int.{ℤ, pos, negsuc}
use backuply.Base.Result.{ok, guard}
use backuply.Model.{Block, Entry, block_size, file, directory}
use backuply.Store.Limits.{max_file_size}
use backuply.Store.Error.{bad_directory}
use backuply.Store.Path.Safe.{IsSafePath, valid_path_iff}
use backuply.Store.Validate.{
  is_pos, valid_hash, valid_layout, valid_blocks, valid_file, validate_entry,
}
use backuply.Store.Validate.Layout.{IsLayout, block_count, is_pos_iff, valid_layout_iff}

pub record IsDirectory (e : Entry) : Type 0 where
  pub kind : e.kind ≡ directory
  pub size : e.size ≡ pos 0
  pub hash : e.hash ≡ []
  pub blocks : e.blocks ≡ []

pub record IsFile (e : Entry) : Type 0 where
  pub kind : e.kind ≡ file
  pub bytes : ℕ
  pub size : e.size ≡ pos bytes
  pub bounded : bytes ≤ max_file_size
  pub hash : valid_hash e.hash ≡ true
  pub count : length e.blocks ≡ block_count bytes
  pub layout : IsLayout bytes 0 e.blocks

pub record IsValidEntry (e : Entry) : Type 0 where
  pub path : IsSafePath e.path
  pub mode : e.mode < 512
  pub shape : IsDirectory e ⊎ IsFile e

valid_blocks_iff :
    (n : ℕ) (bs : List Block)
    → (valid_blocks n bs ≡ ok tt) ↔ ((length bs ≡ block_count n) × IsLayout n 0 bs)
unfolding valid_blocks
valid_blocks_iff n bs = (
  λ h.
      let count : length bs ≡ block_count n = ground arith in
      let start : min n (0 * block_size) ≡ 0 = omega arith in
      let laid : valid_layout n 0 bs ≡ true = ground arith in
      (count, (valid_layout_iff n 0 bs (omega arith)).0 (rw start laid)),
  λ h.
      let start : min n (0 * block_size) ≡ 0 = omega arith in
      let laid : valid_layout n 0 bs ≡ true =
        rw start at ((valid_layout_iff n 0 bs (omega (arith, h.0))).1 h.1) in
      ground (arith, h.0),
)

IsFile-valid_file : (e : Entry) (z : ℤ) → e.size ≡ z → valid_file z e ≡ ok tt → IsFile e
unfolding valid_file
IsFile-valid_file e (negsuc n) s h = cc
IsFile-valid_file e (pos n) s h =
    let blocks = (valid_blocks_iff n e.blocks).0 (ground arith) in
    record {
      kind = ground arith;
      bytes = n;
      size = s;
      bounded = ground arith;
      hash = ground arith;
      count = blocks.0;
      layout = blocks.1;
    }

valid_file-IsFile : (e : Entry) → (f : IsFile e) → valid_file (pos f.bytes) e ≡ ok tt
unfolding valid_file
valid_file-IsFile e f =
    let blocks = (valid_blocks_iff f.bytes e.blocks).1 (f.count, f.layout) in
    ground (arith, f.kind, f.bounded, f.hash)

no_blocks : (bs : List Block) → (length bs =ℕ 0) ≡ true → bs ≡ []
no_blocks [] h = refl
no_blocks (b ∷ bs) h = ground arith

shape_sound :
    (e : Entry)
    → (if e.kind == directory
        then guard (is_pos e.size 0 && e.hash == [] && length e.blocks =ℕ 0) bad_directory
        else valid_file e.size e)
      ≡ ok tt
    → IsDirectory e ⊎ IsFile e
shape_sound e h = elim (Bool-cases (e.kind == directory)) [
  | inl dir ↦ inl (record {
    kind = (==_iff e.kind directory).0 dir;
    size = (is_pos_iff e.size 0).0 (ground arith);
    hash = ground arith;
    blocks = no_blocks e.blocks (ground arith);
  })
  | inr other ↦ inr (IsFile-valid_file e e.size refl (rw other at h))
]

file-ne-directory : file ≢ directory
file-ne-directory e = ground arith

shape_complete :
    (e : Entry)
    → IsDirectory e ⊎ IsFile e
    → (if e.kind == directory
        then guard (is_pos e.size 0 && e.hash == [] && length e.blocks =ℕ 0) bad_directory
        else valid_file e.size e)
      ≡ ok tt
shape_complete e (inl d) = rw (d.kind, d.size, d.hash, d.blocks) (ground arith)
shape_complete e (inr f) =
    rw (f.kind, f.size) (ground (arith, file-ne-directory, valid_file-IsFile e f))

-- `ValidateEntry` accepts exactly the entries with a safe path, permission bits only, and the shape
-- of an empty directory or of a file that is cut into consecutive blocks.
pub validate_entry_iff : (e : Entry) → (validate_entry e ≡ ok tt) ↔ IsValidEntry e
unfolding validate_entry
validate_entry_iff e = (
  λ h. record {
    path = (valid_path_iff e.path).0 (ground arith);
    mode = ground arith;
    shape = shape_sound e (ground arith);
  },
  λ v.
      let p = (valid_path_iff e.path).1 v.path in
      let s = shape_complete e v.shape in ground (arith, v.mode),
)
