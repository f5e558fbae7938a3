-- ===== src/Store/Source/Sound.antt =====
-- What `ReadBlock` returns, whatever other processes do to the disk meanwhile.
use backuply.Base.{
  ◌/◌, ◌≡◌, sym, ap, ◌∙◌, arith, true, false, some, get_elem?, text_eq, ==_iff, Option-cases, inl,
  inr,
}
use mathlib.Core.Path.{subst}
use backuply.Base.Result.{ok, ok-injective}
use backuply.Text.{Text}
use backuply.Model.{Block, Entry, block_size, block_eq, file}
use backuply.Store.Path.{valid_path}
use backuply.Store.Validate.{validate_entry}
use backuply.Store.Codec.{Codec}
use backuply.Store.Index
use backuply.Store.Exec.{World, ◌>>=◌, lift, gets, step}
use backuply.Store.Exec.Inversion.{bind-ok, lift-ok, require-ok, pure-ok, step-db}
use backuply.Store.Root.{read_at, stat, open_file}
use backuply.Store.Folder.{open_folder, check_components}
use backuply.Store.Apply.{get, bytes_of_size}
use backuply.Store.Source.{read_block, read_indexed, is_indexed}

-- A block of a file's entry, at the place that its offset names.
pub record IsBlockOf (e : Entry) (hash : Text) (b : Block) : Type 0 where
  pub valid : validate_entry e ≡ ok tt
  pub kind : e.kind ≡ file
  pub entry_hash : e.hash ≡ hash
  pub block : get_elem? e.blocks (bytes_of_size b.offset / block_size) ≡ some b

is_indexed_iff :
    (e : Entry) (b : Block)
    → is_indexed e b ≡ true
    → get_elem? e.blocks (bytes_of_size b.offset / block_size) ≡ some b
unfolding is_indexed
is_indexed_iff e b h =
    elim (Option-cases (get_elem? e.blocks (bytes_of_size b.offset / block_size))) [
      | inl e0 ↦ let k = rw (e0, is_indexed) at h in cc
      | inr (found, e0) ↦ let k = rw (e0, is_indexed) at h in e0 ∙ ap some ((==_iff found b).0 k)
    ]

module _ (c : Codec) where
  get-ok :
      (folder name : Text) (w : World) {e : Entry}
      → (get c folder name w).0 ≡ ok e
      → Index.get c folder name w.db ≡ ok e
  unfolding get ◌>>=◌
  get-ok folder name w {e} h =
      let whole : get c folder name w ≡ (ok e, (get c folder name w).1) =
        ap (λ x. (x, (get c folder name w).1)) h in
      let (_, _, k1) = bind-ok step _ w whole in
      let (r, read, k2) =
        bind-ok (gets (λ x. Index.get c folder name x.db)) (λ x. lift x) (step w).1 k1 in
      subst (λ db. Index.get c folder name db ≡ ok e) (step-db w)
        (ok-injective read ∙ ap (λ x. x.0) k2)

  read_indexed-ok :
      (folder root name : Text) (e : Entry) (b : Block) (w : World) {found : Text} {w' : World}
      → read_indexed c folder root name e b w ≡ (ok found, w')
      → c.hash_bytes found ≡ b.hash
  unfolding read_indexed
  read_indexed-ok folder root name e b w h =
      let (v, _, k1) = bind-ok (open_folder root folder) _ w h in
      let (_, _, k2) = bind-ok (check_components v name false) _ _ k1 in
      let (f, _, k3) = bind-ok (open_file v _) _ _ k2 in
      let (info, _, k4) = bind-ok (stat f) _ _ k3 in
      let (_, k5) = require-ok _ _ _ _ k4 in
      let (d, _, k6) = bind-ok (read_at f _ _) _ _ k5 in
      let (same, k7) = require-ok _ _ _ _ k6 in
      ap c.hash_bytes (sym (pure-ok d _ k7)) ∙ (==_iff _ _).0 same

  -- Bytes that `ReadBlock` returns have the checksum of the block that was asked for, and that block
  -- stands in a valid entry that the index held for that path when the call began, with the hash that
  -- the peer named, whatever other processes do to the disk meanwhile.
  pub served_block_sound :
      (folder root name entry_hash : Text) (b : Block) (w : World) {found : Text} {w' : World}
      → read_block c folder root name entry_hash b w ≡ (ok found, w')
      → (e : Entry) × (valid_path name ≡ ok tt)
        × (Index.get c folder name w.db ≡ ok e)
        × IsBlockOf e entry_hash b
        × (c.hash_bytes found ≡ b.hash)
  unfolding read_block
  served_block_sound folder root name entry_hash b w h =
      let (_, path, k1) = lift-ok (valid_path name) _ w h in
      let (_, _, k2) = bind-ok step _ w k1 in
      let (e, got, k3) = bind-ok (get c folder name) _ (step w).1 k2 in
      let (_, valid, k4) = lift-ok (validate_entry e) _ _ k3 in
      let (named, k5) = require-ok _ _ _ _ k4 in
      let (indexed, k6) = require-ok _ _ _ _ k5 in
      (
        e,
        path,
        subst (λ db. Index.get c folder name db ≡ ok e) (step-db w)
            (get-ok folder name (step w).1 got),
        record {
          valid = valid;
          kind = ground (arith, named);
          entry_hash = ground (arith, named);
          block = is_indexed_iff e b indexed;
        },
        read_indexed-ok folder root name e b _ k6,
      )
