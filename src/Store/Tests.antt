-- ===== src/Store/Tests.antt =====
-- A small folder, and what the theorems on internal/store say of it.
use mathlib.Core.List.{reverse}
use backuply.Base.{
  List, ◌+◌, ◌≤◌, ◌≡◌, ◌↔◌, refl, arith, none, some, [], ◌∷◌, ◌++◌, length, text_eq, Text_discrete,
}
use backuply.Base.Dict
use backuply.Base.Int.{pos, ℤ_discrete}
use backuply.Base.Result.{ok, is_ok}
use backuply.Text.{Text, codes, valid_utf8, contains_any, has_prefix, utf8_lead, lower_byte}
use native.Mathlib.Decide.{ℕ_discrete}
use backuply.Text.Split.{split}
use backuply.Model.{Block, Entry, file, block_eq, Block_discrete}
use backuply.Store.Path.{slash, valid_path, reserved, all_plain}
use backuply.Store.Path.Safe.{IsSafePath, valid_path_iff, valid_path-resolve, resolve}
use backuply.Store.Validate.{validate_entry, valid_hash, valid_blocks, valid_file, valid_layout}
use backuply.Store.Validate.Exact.{IsValidEntry, validate_entry_iff}
use backuply.Store.Codec.{Codec}
use backuply.Store.Index
use backuply.Store.Index.{
  Db, Usage, key_eq, Key_discrete, max_usage_bytes, check_capacity, replace_folder, upsert,
}
use backuply.Store.Listing.{list}
use backuply.Store.Listing.Complete.{list_complete}
use backuply.Store.Index.Totals.{IsConsistent, count_of, upsert-IsConsistent}
use backuply.Store.Index.Capacity.{check_capacity-put}
use backuply.Store.Index.Replace.{IsReplaced, replace_folder_lem}
use backuply.Store.Index.Replace.Insert.{cost}
use backuply.Store.Disk.{Disk, Node, location_eq, Location_discrete, behind, regular, dir, node_at}
use backuply.Store.Exec.{World, ◌>>=◌, step}
use backuply.Store.Exec.Keeps.{Post}
use backuply.Store.Root.{lstat, open_file, open_root, read_at, stat}
use backuply.Store.Root.Writes.{Holds}
use backuply.Store.Folder.{check_components, check_elements, check_marker, is_regular, open_folder}
use backuply.Store.Fingerprint.{fingerprint, read_blocks}
use backuply.Store.Fingerprint.Exact.{describe, fingerprint-describe}
use backuply.Store.Apply.{apply, get}
use backuply.Store.Apply.Stages.{IsComplete, IsSafe}
use backuply.Store.Apply.Atomic.{apply_atomic}
use backuply.Store.Source.{read_block, read_indexed, is_indexed}
use backuply.Store.Source.Sound.{IsBlockOf, served_block_sound}
use backuply.Store.Scan.{walk, max_depth, scan}
use backuply.Store.Scan.Untouched.{scan_all_or_nothing}
use backuply.Store.Scan.Depth.{walk-enough}

abbrev photos : Text
photos = codes "photos"

abbrev root : Text
root = codes "/data"

abbrev name : Text
name = codes "a.txt"

abbrev zeros : Text
zeros = codes "0000000000000000000000000000000000000000000000000000000000000000"

abbrev block : Block
block = record { offset = pos 0; size = pos 3; hash = zeros }

abbrev entry : Entry
entry = record {
  path = name;
  kind = file;
  size = pos 3;
  mode = 0o644;
  hash = zeros;
  blocks = block ∷ [];
}

abbrev codec : Codec
codec = record { marshal = λ e. codes "{}"; unmarshal = λ raw. some entry; hash_bytes = λ b. zeros }

abbrev node : Text → Node
node bytes = record { kind = regular; mode = 0o600; bytes = bytes; mtime = 0; inode = 1 }

abbrev disk : Disk
disk = record {
  mounts = (root, 1) ∷ [];
  nodes =
      ((1, codes ".backuply-folder" ∷ []), node (codes "photos" ++ b'\n' ∷ []))
      ∷ (((1, name ∷ []), node (codes "abc")) ∷ []);
  fresh = 2;
}

abbrev empty : Db
empty = record { rows = []; usage = [] }

abbrev db : Db
db = record {
  rows = ((photos, name), codes "{}") ∷ [];
  usage = (photos, record { entries = 1; bytes = 3 }) ∷ [];
}

abbrev world : World
world = record { disk = disk; db = db; events = [] }

empty-IsConsistent : IsConsistent empty
unfolding Dict.total Dict.lookup
empty-IsConsistent = record {
  entries = λ f. refl;
  bytes = λ f. refl;
  entries_le = λ f. omega arith;
  bytes_le = λ f. omega arith;
}

name_valid : valid_path name ≡ ok tt
unfolding valid_path text_eq valid_utf8 split contains_any reserved has_prefix
name_valid = refl

reads : read_block codec photos root name zeros block world ≡ (ok (codes "abc"), world)
unfolding read_block read_indexed text_eq get Index.get validate_entry valid_hash valid_blocks
    valid_file valid_layout lower_byte is_indexed block_eq Key_discrete Block_discrete ℤ_discrete
    ◌>>=◌ valid_path valid_utf8 split contains_any reserved has_prefix step Dict.lookup key_eq
    location_eq node_at behind check_components check_elements check_marker is_regular open_folder
    lstat open_file open_root read_at stat utf8_lead ℕ_discrete Text_discrete Location_discrete
    all_plain
reads = refl

fingerprints : fingerprint codec 1 name world ≡ (ok (record entry { mode = 0o600 }), world)
unfolding fingerprint read_blocks text_eq ◌>>=◌ valid_path valid_utf8 split contains_any reserved
    has_prefix step Dict.lookup key_eq location_eq node_at behind check_components check_elements
    check_marker is_regular open_folder lstat open_file open_root read_at stat utf8_lead ℕ_discrete
    Text_discrete Location_discrete all_plain
fingerprints = refl

mounted : Dict.lookup root disk.mounts ≡ some 1
unfolding Dict.lookup text_eq
mounted = refl

there : node_at disk 1 (split slash name) ≡ some (node (codes "abc"))
unfolding node_at Dict.lookup text_eq split location_eq
there = refl

upserts : upsert photos name (codes "{}") empty ≡ ok db
unfolding upsert Dict.lookup Dict.insert
upserts = refl

one_entry : length (entry ∷ []) ≤ 100000
one_entry = omega arith

few_bytes : cost codec (entry ∷ []) ≤ max_usage_bytes
unfolding cost
few_bytes = omega arith

deep : max_depth ≤ length (name ∷ []) + 4098
deep = omega arith

apply_atomic_example :
    Post
      (λ _ w'. Holds 1 (split slash name) (IsComplete codec entry) w'.disk)
      (λ w'. IsSafe codec entry 1 (split slash name) (node_at disk 1 (split slash name)) w'.disk)
      (apply codec (codes "00") none photos root entry world)
apply_atomic_example =
    apply_atomic codec entry 1 (codes "00") none photos root world refl tt mounted

served_block_sound_example :
    (e : Entry) × (valid_path name ≡ ok tt)
    × (Index.get codec photos name db ≡ ok e)
    × IsBlockOf e zeros block
    × (zeros ≡ zeros)
served_block_sound_example = served_block_sound codec photos root name zeros block world reads

replace_folder_example :
    (db' : Db) × (replace_folder codec photos (entry ∷ []) empty ≡ ok db')
    × IsReplaced codec photos (entry ∷ []) empty db'
replace_folder_example =
    replace_folder_lem codec photos (entry ∷ []) empty empty-IsConsistent (tt, tt) one_entry
      few_bytes

check_capacity-put_example :
    is_ok (check_capacity codec photos entry empty) ≡ is_ok (Index.put codec photos entry empty)
check_capacity-put_example = check_capacity-put codec photos entry empty empty-IsConsistent

upsert-IsConsistent_example : IsConsistent db
upsert-IsConsistent_example =
    upsert-IsConsistent photos name (codes "{}") empty empty-IsConsistent upserts

fingerprint-describe_example :
    record entry { mode = 0o600 } ≡ describe codec name (node (codes "abc"))
fingerprint-describe_example =
    fingerprint-describe codec 1 name (node (codes "abc")) world tt there fingerprints

validate_entry_example : (validate_entry entry ≡ ok tt) ↔ IsValidEntry entry
validate_entry_example = validate_entry_iff entry

valid_path_example : (valid_path name ≡ ok tt) ↔ IsSafePath name
valid_path_example = valid_path_iff name

valid_path-resolve_example :
    resolve (root ∷ []) (split slash name) ≡ some (reverse (split slash name) ++ root ∷ [])
valid_path-resolve_example = valid_path-resolve name (root ∷ []) name_valid

walk-enough_example :
    walk codec 4098 1 (name ∷ []) dir (record { entries = []; bytes = 0 })
    ≡ walk codec 4099 1 (name ∷ []) dir (record { entries = []; bytes = 0 })
walk-enough_example =
    walk-enough codec 4098 1 (name ∷ []) dir (record { entries = []; bytes = 0 }) deep

db-IsConsistent : IsConsistent db
db-IsConsistent = upsert-IsConsistent photos name (codes "{}") empty empty-IsConsistent upserts

entry_valid : validate_entry entry ≡ ok tt
unfolding validate_entry valid_hash valid_blocks valid_file valid_layout lower_byte valid_path
    text_eq valid_utf8 split contains_any reserved has_prefix
entry_valid = refl

list_complete_example :
    (es : List Entry) × (list codec photos db ≡ ok es) × (length es ≡ count_of photos db.rows)
list_complete_example =
    list_complete codec photos db db-IsConsistent ((λ same. (entry, refl, entry_valid)), tt)

scan_all_or_nothing_example :
    Post
      (λ es w'. replace_folder codec photos es db ≡ ok w'.db)
      (λ w'. w'.db ≡ db)
      (scan codec photos root world)
scan_all_or_nothing_example = scan_all_or_nothing codec photos root world
