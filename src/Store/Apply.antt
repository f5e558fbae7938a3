-- ===== src/Store/Apply.antt =====
-- `Apply` of internal/store/apply.go, cut into its stages. `nonce` is the hexadecimal text of the
-- random bytes, and `fetch` answers a request for a block (`none` stands for a nil fetcher). The
-- mutex and the release of handles leave no trace here. What `stats` holds beside an error is
-- dropped, as by every caller.
pub mod Untouched
pub mod Recorded
pub mod Reads
pub mod Temp
pub mod Stages
pub mod Install
pub mod Atomic
use Prim.Native.Nat.{bit_or}
use backuply.Base.{
  ℕ, zero, suc, ◌+◌, ◌-◌, ◌≡◌, Bool, true, false, ◌&&◌, ◌||◌, not, Option, none, some, List, [],
  ◌∷◌, ◌++◌, ◌=ℕ◌, ltb, leb, length, text_eq, ◌==◌, if◌then◌else◌,
}
use backuply.Base.Int.{ℤ, pos, negsuc}
use backuply.Base.Result.{Result, ok, err}
use backuply.Text.{Text, codes}
use backuply.Text.Split.{split}
use backuply.Model.{Block, Entry, Stats, no_stats, file, directory, blocks_eq, int_eq}
use backuply.Store.Limits.{temp_prefix}
use backuply.Store.Error.{
  Error, Check, not_exist, no_rows, local_change, blocks_mismatch, no_fetcher, corrupt_block,
  checksum_mismatch,
}
use backuply.Store.Path.{slash}
use backuply.Store.Validate.{is_pos, validate_entry}
use backuply.Store.Codec.{Codec}
use backuply.Store.Index
use backuply.Store.Index.{Db}
use backuply.Store.Disk.{Volume, FilePath, Node, Handle}
use backuply.Store.Exec.{
  Exec, pure, fail, lift, ◌>>=◌, ◌>>◌, require, step, gets, try, finally, change_db,
}
use backuply.Store.Root.{
  lstat, open_file, read_at, mkdir, create, append_file, chmod, remove, rename,
}
use backuply.Store.Folder.{
  is_regular, is_directory, check_marker, check_folder, open_folder, check_components, sync_dir,
  parent, ensure_parents,
}
use backuply.Store.Fingerprint.{fingerprint}

-- The number of bytes that an accepted size stands for.
abbrev pub bytes_of_size : ℤ → ℕ
bytes_of_size (pos n) = n
bytes_of_size (negsuc n) = 0

abbrev pub Fetch : Type 0
Fetch = Option (Block → Result Error Text)

-- What stands at the destination: nothing, or an older version with its fingerprint.
pub data Previous : Type 0 where
  absent : Previous
  older : Handle → Entry → Previous

or_missing : Result Error Node → Exec (Option Node)
or_missing (ok n) = pure (some n)
or_missing (err not_exist) = pure none
or_missing (err e) = fail e

-- `Lstat` where a missing file is no error
unfoldable pub lstat? : Volume → FilePath → Exec (Option Node)
unfolding or_missing
lstat? v p = do r ← try (lstat v p); or_missing r

no_row : Result Error Entry → Exec (Unit {0})
no_row (ok _) = fail local_change
no_row (err no_rows) = pure tt
no_row (err e) = fail e

same_row : Entry → Result Error Entry → Exec (Unit {0})
same_row current (ok indexed) =
    require (indexed.kind == file && indexed.hash == current.hash) local_change
same_row current (err no_rows) = fail local_change
same_row current (err e) = fail e

still_absent : Result Error Node → Exec (Unit {0})
still_absent (ok _) = fail local_change
still_absent (err not_exist) = pure tt
still_absent (err x) = fail x

store_db : Result Error Db → Exec (Unit {0})
store_db (ok db) = change_db db
store_db (err e) = fail e

module _ (c : Codec) where
  -- `get` and `put` as statements
  unfoldable pub get : Text → Text → Exec Entry
  get folder path = do step; r ← gets (λ w. Index.get c folder path w.db); lift r

  unfoldable pub put : Text → Entry → Exec (Unit {0})
  unfolding store_db
  put folder e = do step; r ← gets (λ w. Index.put c folder e w.db); store_db r

  -- A path with no file must have no row: a deletion is a local change too.
  unfoldable pub not_deleted : Text → Text → Exec (Unit {0})
  unfolding no_row
  not_deleted folder path = do r ← try (get folder path); no_row r

  -- The file that is replaced must be the one that the index names.
  unfoldable pub not_edited : Text → Text → Entry → Exec (Unit {0})
  unfolding same_row
  not_edited folder path current = do r ← try (get folder path); same_row current r

-- `tempPrefix` and the nonce, in the destination's directory
abbrev pub temp_path : Text → FilePath → FilePath
temp_path nonce parts = parent parts ++ (temp_prefix ++ nonce) ∷ []

-- A new directory is made with its owner's access.
unfoldable pub make_directory : Volume → FilePath → ℕ → Option Node → Exec (Unit {0})
make_directory v parts mode (some _) = pure tt
make_directory v parts mode none = do mkdir v parts (bit_or mode 0o700); sync_dir v (parent parts)

unfoldable pub is_dir_node : Option Node → Bool
is_dir_node none = true
is_dir_node (some n) = is_directory n.kind

-- `blocks[b.Hash] = b` for each block in turn, and the lookup in that map
unfoldable pub reusable : List Block → Text → Option Block
reusable [] h = none
reusable (b ∷ bs) h = elim (reusable bs h) [
  | some later ↦ some later
  | none ↦ if b.hash == h then some b else none
]

-- The blocks of the older version, if there is one and it is open.
unfoldable pub reuse : Previous → Block → Option (Handle × Block)
reuse absent b = none
reuse (older old current) b = elim (reusable current.blocks b.hash) [
  | none ↦ none
  | some known ↦ if known.size == b.size then some (old, known) else none
]

-- The data of the blocks written so far, which `full` hashes, and where they came from.
pub record Progress : Type 0 where
  pub content : Text
  pub received : ℕ
  pub reused : ℕ

abbrev pub nothing_yet : Progress
nothing_yet = record { content = []; received = 0; reused = 0 }

abbrev pub add_block : Progress → Progress → Progress
add_block got p = record {
  content = p.content ++ got.content;
  received = p.received + got.received;
  reused = p.reused + got.reused;
}

module _ (c : Codec) where
  unfoldable pub known_directory : Text → Entry → Option Node → Exec (Unit {0})
  known_directory folder e none = not_deleted c folder e.path
  known_directory folder e (some _) = pure tt

  unfoldable pub apply_directory : Text → Entry → Volume → FilePath → Option Node → Exec Stats
  unfolding known_directory make_directory is_dir_node
  apply_directory folder e v parts info = do
    known_directory folder e info
    require (is_dir_node info) local_change
    ensure_parents v parts
    make_directory v parts e.mode info
    put c folder e
    pure no_stats

  -- The same content is there: only the permissions change.
  unfoldable pub reuse_in_place : Text → Entry → Volume → FilePath → Entry → Exec Stats
  reuse_in_place folder e v parts current = do
    require (current.blocks == e.blocks) blocks_mismatch
    f ← open_file v parts
    chmod v parts e.mode
    step
    put c folder e
    pure (record no_stats { bytes_reused = bytes_of_size e.size })

  -- One block, from the older version if it can be had there
  unfoldable pub fetch_block : Fetch → Block → Exec Text
  fetch_block none b = fail no_fetcher
  fetch_block (some fetch) b = do
    step
    d ← lift (fetch b)
    require (is_pos b.size (length d) && c.hash_bytes d == b.hash) corrupt_block
    pure d

  if_intact : Block → Result Error Text → Option Text
  if_intact b (ok buf) = if c.hash_bytes buf == b.hash then some buf else none
  if_intact b (err _) = none

  -- The older version's block, if it still reads as it should.
  unfoldable pub reuse_block : Block → Option (Handle × Block) → Exec (Option Text)
  unfolding if_intact
  reuse_block b none = pure none
  reuse_block b (some (old, known)) = do
    r ← try (read_at old (bytes_of_size b.size) (bytes_of_size known.offset))
    pure (if_intact b r)

  or_fetch : Fetch → Block → Option Text → Exec Progress
  or_fetch fetch b (some d) = pure (record { content = d; received = 0; reused = length d })
  or_fetch fetch b none = do
    d ← fetch_block fetch b
    pure (record { content = d; received = length d; reused = 0 })

  unfoldable pub write_blocks :
      Fetch → Volume → FilePath → Previous → List Block → Progress → Exec Progress
  unfolding or_fetch
  write_blocks fetch v tmp prev [] acc = pure acc
  write_blocks fetch v tmp prev (b ∷ bs) acc = do
    step
    known ← reuse_block b (reuse prev b)
    got ← or_fetch fetch b known
    append_file v tmp got.content
    write_blocks fetch v tmp prev bs (add_block got acc)

  -- Right before the rename: what stands at the destination is still what was found there.
  unfoldable pub recheck : Entry → Volume → FilePath → Previous → Exec (Unit {0})
  unfolding still_absent
  recheck e v parts (older old current) = do
    latest ← fingerprint c v e.path
    require (latest.hash == current.hash) local_change
  recheck e v parts absent = do r ← try (lstat v parts); still_absent r

  -- From the finished temporary file to the committed entry
  unfoldable pub publish :
      Text → Text → Entry → Volume → FilePath → FilePath → Previous → Progress → Exec Stats
  publish folder root e v parts tmp prev done = do
    require (c.hash_bytes done.content == e.hash) checksum_mismatch
    chmod v tmp e.mode
    step
    step
    check_folder root folder
    check_marker v folder
    check_components v e.path true
    recheck e v parts prev
    step
    rename v tmp parts
    sync_dir v (parent parts)
    put c folder e
    pure (record { files = 1; bytes_received = done.received; bytes_reused = done.reused })

  unfoldable pub install :
      Text → Fetch → Text → Text → Entry → Volume → FilePath → Previous → Exec Stats
  install nonce fetch folder root e v parts prev = do
    ensure_parents v parts
    step
    let tmp = temp_path nonce parts
    create v tmp 0o600
    finally
        (do
          done ← write_blocks fetch v tmp prev e.blocks nothing_yet
          publish folder root e v parts tmp prev done)
        (remove v tmp)

  unfoldable pub apply_file :
      Text → Fetch → Text → Text → Entry → Volume → FilePath → Option Node → Exec Stats
  apply_file nonce fetch folder root e v parts none = do
    not_deleted c folder e.path
    install nonce fetch folder root e v parts absent
  apply_file nonce fetch folder root e v parts (some info) = do
    require (is_regular info.kind) local_change
    current ← fingerprint c v e.path
    let same = reuse_in_place folder e v parts current
    let replace : Exec Stats = (do
      not_edited c folder e.path current
      old ← open_file v parts
      install nonce fetch folder root e v parts (older old current))
    if current.hash == e.hash then same else replace

  unfoldable pub apply : Text → Fetch → Text → Text → Entry → Exec Stats
  apply nonce fetch folder root e = do
    lift (validate_entry e)
    step
    step
    r ← gets (λ w. Index.check_capacity c folder e w.db)
    lift r
    v ← open_folder root folder
    check_components v e.path true
    let parts = split slash e.path
    info ← lstat? v parts
    if e.kind == directory
        then apply_directory folder e v parts info
        else apply_file nonce fetch folder root e v parts info
