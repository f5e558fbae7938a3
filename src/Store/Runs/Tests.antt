-- ===== src/Store/Runs/Tests.antt =====
-- A folder that is applied to and scanned, and what the theorems on runs of the store say of it.
use backuply.Base.{text_eq, ◌≡◌, refl, arith, none, some, [], ◌∷◌, ◌++◌}
use backuply.Base.Dict
use backuply.Base.Int.{pos}
use backuply.Base.Result.{ok}
use backuply.Text.{Text, codes}
use backuply.Model.{Entry, directory}
use backuply.Store.Codec.{Codec}
use backuply.Store.Index
use backuply.Store.Index.{Db, entries_or_0, bytes_or_0, store_usage}
use backuply.Store.Index.Open.{open_index, store_groups, grouped}
use backuply.Store.Index.Open.Rebuilt.{open_index-IsConsistent}
use backuply.Store.Index.Totals.{IsConsistent, count_of}
use backuply.Store.Disk.{Disk, Node, regular}
use backuply.Store.Exec.{World}
use backuply.Store.Exec.Keeps.{Post}
use backuply.Store.Apply.{apply}
use backuply.Store.Apply.Recorded.{apply-Recorded}
use backuply.Store.Scan.{scan}
use backuply.Store.Runs.{Run, applied, scanned, done, next}
use backuply.Store.Runs.Consistent.{run-IsConsistent}

abbrev photos : Text
photos = codes "photos"

abbrev root : Text
root = codes "/data"

abbrev album : Entry
album = record {
  path = codes "a";
  kind = directory;
  size = pos 0;
  mode = 0o755;
  hash = [];
  blocks = [];
}

abbrev codec : Codec
codec = record { marshal = λ e. codes "{}"; unmarshal = λ raw. some album; hash_bytes = λ b. b }

abbrev marker : Node
marker = record {
  kind = regular;
  mode = 0o600;
  bytes = codes "photos" ++ b'\n' ∷ [];
  mtime = 0;
  inode = 1;
}

abbrev disk : Disk
disk = record {
  mounts = (root, 1) ∷ [];
  nodes = ((1, codes ".backuply-folder" ∷ []), marker) ∷ [];
  fresh = 2;
}

abbrev empty : Db
empty = record { rows = []; usage = [] }

abbrev world : World
world = record { disk = disk; db = empty; events = [] }

empty-IsConsistent : IsConsistent empty
unfolding Dict.total Dict.lookup
empty-IsConsistent = record {
  entries = λ f. refl;
  bytes = λ f. refl;
  entries_le = λ f. omega arith;
  bytes_le = λ f. omega arith;
}

abbrev after_apply : World
after_apply = (apply codec (codes "00") none photos root album world).1

one_run : Run codec world (scan codec photos root after_apply).1
one_run =
    next (applied (codes "00") none photos root album world)
      (next (scanned photos root after_apply) (done _))

apply-Recorded_example :
    Post
      (λ _ w'. Index.put codec photos album empty ≡ ok w'.db)
      (λ w'. w'.db ≡ empty)
      (apply codec (codes "00") none photos root album world)
apply-Recorded_example = apply-Recorded codec (codes "00") none photos root album world

run-IsConsistent_example : IsConsistent (scan codec photos root after_apply).1.db
run-IsConsistent_example =
    run-IsConsistent codec world (scan codec photos root after_apply).1 one_run empty-IsConsistent

-- A database of an older version, whose totals are missing.
abbrev older : Db
older = record { rows = ((photos, codes "a"), codes "{}") ∷ []; usage = [] }

abbrev rebuilt : Db
rebuilt = record older { usage = (photos, record { entries = 1; bytes = 3 }) ∷ [] }

opens : open_index 0 older ≡ ok rebuilt
unfolding open_index store_groups grouped store_usage Dict.lookup Dict.insert text_eq
opens = refl

no_totals :
    (f : Text)
    → count_of f older.rows ≡ 0
    → (entries_or_0 (Dict.lookup f older.usage) ≡ 0) × (bytes_or_0 (Dict.lookup f older.usage) ≡ 0)
unfolding Dict.lookup
no_totals f h = (refl, refl)

open_index-IsConsistent_example : (rebuilt.rows ≡ older.rows) × IsConsistent rebuilt
open_index-IsConsistent_example = open_index-IsConsistent 0 older rebuilt no_totals opens
