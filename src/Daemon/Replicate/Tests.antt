-- ===== src/Daemon/Replicate/Tests.antt =====
-- A peer that lists a directory after what it holds, and what the theorem on `replicate` says of it.
use mathlib.Core.List.{Permᴰ}
use backuply.Base.{ℕ, ◌≡◌, refl, none, some, List, [], ◌∷◌}
use backuply.Base.Int.{pos}
use backuply.Base.Result.{ok, err}
use backuply.Text.{Text, codes}
use backuply.Model.{Entry, no_stats, file, directory}
use backuply.Config.{Folder}
use backuply.Store.Codec.{Codec}
use backuply.Store.Error.{io_error}
use backuply.Daemon.Replicate.{Client, Worker, Failure, Outcome, fetch_folder}
use backuply.Daemon.Replicate.Sorted.{IsParentsFirst}
use backuply.Daemon.Replicate.Installs.{Installs, finished, fetch_folder-Installs}

abbrev album : Entry
album = record {
  path = codes "a";
  kind = directory;
  size = pos 0;
  mode = 0o755;
  hash = [];
  blocks = [];
}

abbrev picture : Entry
picture = record album { path = codes "a/b"; kind = file }

abbrev listed : List Entry
listed = picture ∷ album ∷ []

abbrev client : Client
client = record { list = λ id. ok listed; read_block = λ id e b. err (io_error 5) }

abbrev codec : Codec
codec = record { marshal = λ e. codes "{}"; unmarshal = λ raw. none; hash_bytes = λ b. [] }

abbrev folder : Folder
folder = record { id = codes "photos"; path = codes "/data"; source = codes "box"; peers = [] }

abbrev text : Failure → Text
text x = codes "failed"

abbrev now : Text → ℕ
now id = 7

abbrev nonce : Entry → Text
nonce e = codes "1"

abbrev worker : Worker
worker = record {
  shared = record {
    world = record {
      disk = record { mounts = (codes "/data", 1) ∷ []; nodes = []; fresh = 2 };
      db = record { rows = []; usage = [] };
      events = [];
    };
    statuses = [];
  };
  client = some client;
  dials = [];
}

fetch_folder-Installs_example :
    (order : List Entry) × Permᴰ order listed
    × IsParentsFirst order
    × (o : Outcome) × (w : Worker) × Installs codec text now nonce folder client order no_stats
        worker o w
    × (fetch_folder codec text now nonce folder (ok client) worker
        ≡ (ok tt, finished codec text now nonce folder client listed o w))
fetch_folder-Installs_example =
    fetch_folder-Installs codec text now nonce folder client listed worker refl
