-- ===== src/Daemon/Tests.antt =====
-- A device with one folder and one peer, and what the theorems on internal/daemon say of it.
use native.Mathlib.Decide.{ℕ_discrete}
use backuply.Base.{
  ℕ, ◌≡◌, ◌≢◌, ◌↔◌, refl, arith, true, none, some, [], ◌∷◌, ◌++◌, All, text_eq, Text_discrete, ◌==◌,
  Bool-cases, inl, inr,
}
use backuply.Base.Dict
use backuply.Base.Int.{pos, ℤ_discrete}
use backuply.Base.Result.{ok}
use backuply.Base.Action
use backuply.Text.{Text, codes, valid_utf8, contains_any, has_prefix, utf8_lead, lower_byte}
use backuply.Text.Split.{split}
use backuply.Model.{Block, Entry, no_stats, file, block_eq, Block_discrete}
use backuply.Config.{Config, Peer, Folder, local}
use backuply.Config.Parse.{peer_or_zero}
use backuply.Store.Codec.{Codec}
use backuply.Store.Index
use backuply.Store.Index.{Db, Key_discrete, key_eq}
use backuply.Store.Disk.{Disk, Node, location_eq, Location_discrete, behind, regular, node_at}
use backuply.Store.Error.{Error as StoreError}
use backuply.Store.Exec
use backuply.Store.Exec.{World, step}
use backuply.Store.Folder.{
  check_folder, check_marker, is_regular, open_folder, check_components, check_elements,
}
use backuply.Store.Listing
use backuply.Store.Listing.{collect, sorted_rows, insert_sorted, text_le}
use backuply.Store.Path.{valid_path, reserved, all_plain}
use backuply.Store.Root.{open_root, lstat, open_file, read_at, stat}
use backuply.Store.Source
use backuply.Store.Source.{read_indexed, is_indexed}
use backuply.Store.Source.Sound.{IsBlockOf}
use backuply.Store.Validate.{validate_entry, valid_hash, valid_blocks, valid_file, valid_layout}
use backuply.Store.Apply.{get}
use backuply.Transport.Message.{Message, message, Format}
use backuply.Transport.Server.{handle_request}
use backuply.Daemon.Status.{
  FolderStatus, empty_status, new_statuses, Update, is_available, status_or_zero,
}
use backuply.Daemon.Status.History.{
  History, statuses_after, updates_of, summary, statuses_after-summary, statuses_after-is_available,
}
use backuply.Daemon.Access.{
  Shared, from_store, call, or_denied, device_of, is_peer, check_source, authorize, query, list,
  read_block, backend,
}
use backuply.Daemon.Access.Denied.{IsStranger, refusing, handle_request-refusing}
use backuply.Daemon.Access.Granted.{IsGranted, list_lem, read_block_lem}
use backuply.Daemon.Scan.{scan_folder}
use backuply.Daemon.Scan.Recorded.{Recorded, scan_folder-Recorded}

abbrev id : Text
id = codes "photos"

abbrev root : Text
root = codes "/data"

abbrev name : Text
name = codes "a.txt"

abbrev zeros : Text
zeros = codes "0000000000000000000000000000000000000000000000000000000000000000"

abbrev block : Block
block = record { offset = pos 0; size = pos 3; hash = zeros }

abbrev entry : Entry
entry = record {
  path = name;
  kind = file;
  size = pos 3;
  mode = 0o644;
  hash = zeros;
  blocks = block ∷ [];
}

abbrev codec : Codec
codec = record { marshal = λ e. codes "{}"; unmarshal = λ raw. some entry; hash_bytes = λ b. zeros }

abbrev format : Format
format = record {
  marshal = λ m. m.kind;
  unmarshal = λ t. some (message t);
  hash_bytes = λ b. zeros;
}

abbrev node : Text → Node
node bytes = record { kind = regular; mode = 0o600; bytes = bytes; mtime = 0; inode = 1 }

abbrev disk : Disk
disk = record {
  mounts = (root, 1) ∷ [];
  nodes =
      ((1, codes ".backuply-folder" ∷ []), node (codes "photos" ++ b'\n' ∷ []))
      ∷ (((1, name ∷ []), node (codes "abc")) ∷ []);
  fresh = 2;
}

abbrev db : Db
db = record {
  rows = ((id, name), codes "{}") ∷ [];
  usage = (id, record { entries = 1; bytes = 3 }) ∷ [];
}

abbrev box : Peer
box = record { name = codes "box"; address = codes "10.0.0.2:24800"; device_id = zeros }

abbrev photos : Folder
photos = record { id = id; path = root; source = local; peers = codes "box" ∷ [] }

abbrev config : Config
config = record {
  listen = codes "127.0.0.1:24800";
  state_dir = codes "/var/lib/backuply";
  scan_interval = pos 1000000000;
  peers = (codes "box", box) ∷ [];
  folders = (id, photos) ∷ [];
}

abbrev scanned : Update
scanned = record { folder = id; count = 1; stats = no_stats; error = none; now = 7 }

abbrev failed : Update
failed = record { folder = id; count = 0; stats = no_stats; error = some (codes "gone"); now = 6 }

abbrev status : FolderStatus
status = record empty_status { source = local; entries = 1; last_success = some 7 }

abbrev shared : Shared
shared = record {
  world = record { disk = disk; db = db; events = [] };
  statuses = (id, status) ∷ [];
}

lists : (list config codec zeros id shared).0 ≡ ok (entry ∷ [])
unfolding list authorize call or_denied is_peer device_of peer_or_zero check_source from_store query
    check_folder check_marker is_regular open_root lstat open_file behind node_at step Listing.list
    collect sorted_rows insert_sorted validate_entry valid_hash valid_blocks valid_file valid_layout
    valid_path valid_utf8 split contains_any reserved has_prefix lower_byte utf8_lead all_plain
    is_available status_or_zero Dict.lookup text_eq key_eq location_eq Key_discrete
    Location_discrete Text_discrete ℕ_discrete Exec.◌>>=◌ Action.◌>>=◌
lists = refl

reads : (read_block config codec zeros id name zeros block shared).0 ≡ ok (codes "abc")
unfolding read_block authorize call or_denied is_peer device_of peer_or_zero check_source from_store
    check_folder check_marker is_regular open_root lstat open_file behind node_at step read_at stat
    open_folder check_components check_elements get Index.get Source.read_block read_indexed
    is_indexed block_eq Block_discrete ℤ_discrete validate_entry valid_hash valid_blocks valid_file
    valid_layout valid_path valid_utf8 split contains_any reserved has_prefix lower_byte utf8_lead
    all_plain is_available status_or_zero Dict.lookup text_eq key_eq location_eq Key_discrete
    Location_discrete Text_discrete ℕ_discrete Exec.◌>>=◌ Action.◌>>=◌
reads = refl

new_there :
    Dict.lookup id (new_statuses config.folders) ≡ some (record empty_status { source = local })
unfolding new_statuses Dict.lookup text_eq
new_there = refl

-- No peer has the device ID.
abbrev eve : Text
eve = codes "eve"

not_eve : (name : Text) → device_of config name ≢ eve
unfolding device_of peer_or_zero Dict.lookup
not_eve name e = elim (Bool-cases (name == codes "box")) [
  | inl same ↦ ground (arith, rw (device_of, same) at e)
  | inr other ↦ ground (arith, rw (device_of, other) at e)
]

eve-IsStranger : IsStranger config eve id
eve-IsStranger f name found among = not_eve name

abbrev request : Message
request = record (message (codes "list")) { folder = id }

no_empty_errors : All (λ (u : Update). u.error ≢ some []) (updates_of id (scanned ∷ failed ∷ []))
unfolding updates_of text_eq
no_empty_errors = (λ e. cc, (λ e. ground (arith, e), tt))

abbrev text : StoreError → Text
text e = codes "scan failed"

abbrev now : Text → ℕ
now folder = 7

statuses_after-summary_example :
    Dict.lookup id (statuses_after (new_statuses config.folders) (scanned ∷ failed ∷ []))
    ≡ some (summary local (updates_of id (scanned ∷ failed ∷ [])))
statuses_after-summary_example =
    statuses_after-summary (new_statuses config.folders) id local (scanned ∷ failed ∷ []) new_there

statuses_after-is_available_example :
    (is_available (
        status_or_zero
          (Dict.lookup id (statuses_after (new_statuses config.folders) (scanned ∷ failed ∷ []))))
      ≡ true)
    ↔ ((u : Update) × (earlier : History) × (updates_of id (scanned ∷ failed ∷ []) ≡ u ∷ earlier)
        × (u.error ≡ none))
statuses_after-is_available_example =
    statuses_after-is_available (new_statuses config.folders) id local (scanned ∷ failed ∷ [])
      new_there no_empty_errors

handle_request-refusing_example :
    handle_request format (backend config codec shared) eve request
    ≡ handle_request format refusing eve request
handle_request-refusing_example =
    handle_request-refusing format config codec shared eve request eve-IsStranger

list_lem_example :
    (f : Folder) × IsGranted config zeros id f shared × (Listing.list codec id db ≡ ok (entry ∷ []))
list_lem_example = list_lem config codec zeros id (entry ∷ []) shared lists

read_block_lem_example :
    (f : Folder) × IsGranted config zeros id f shared
    × (e : Entry) × (Index.get codec id name db ≡ ok e)
    × IsBlockOf e zeros block
    × (zeros ≡ zeros)
read_block_lem_example =
    read_block_lem config codec zeros id name zeros block (codes "abc") shared reads

scan_folder-Recorded_example :
    Recorded codec text now id db
      (status_or_zero (Dict.lookup id shared.statuses))
      (scan_folder codec text now id photos shared).1.world.db
      (Dict.lookup id (scan_folder codec text now id photos shared).1.statuses)
scan_folder-Recorded_example = scan_folder-Recorded codec text now id photos shared
