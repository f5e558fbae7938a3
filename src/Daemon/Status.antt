-- ===== src/Daemon/Status.antt =====
-- The status of each folder in internal/daemon/daemon.go, and `update`. What `update` writes to the log
-- is left out, and so is the mutex, which makes each function here one step. The two sums of bytes are
-- 64-bit words, which wrap around as the `int64` of the source does.
pub mod History
use backuply.Base.{
  ℕ, ◌+◌, Bool, true, false, ◌&&◌, Option, none, some, List, [], ◌∷◌, text_eq, ◌==◌,
}
use backuply.Base.Dict
use backuply.Base.Dict.{Dict}
use backuply.Text.{Text}
use backuply.Model.{Stats, add_int64}
use backuply.Config.{Config, Folder}

-- `last_success` is a time since some epoch, or none for the zero time. `entries` is only ever set to
-- the length of a slice, which is an `int`.
pub record FolderStatus : Type 0 where
  pub source : Text
  pub entries : ℕ
  pub last_success : Option ℕ
  pub last_error : Text
  pub bytes_received : ℕ
  pub bytes_reused : ℕ

abbrev pub Statuses : Type 0
Statuses = Dict Text FolderStatus

abbrev pub empty_status : FolderStatus
empty_status = record {
  source = [];
  entries = 0;
  last_success = none;
  last_error = [];
  bytes_received = 0;
  bytes_reused = 0;
}

-- `d.status.Folders[id]`
unfoldable pub status_or_zero : Option FolderStatus → FolderStatus
status_or_zero none = empty_status
status_or_zero (some s) = s

-- The statuses that `New` starts with
unfoldable pub new_statuses : Dict Text Folder → Statuses
new_statuses [] = []
new_statuses ((id, f) ∷ folders) =
    (id, record empty_status { source = f.source }) ∷ new_statuses folders

-- What `update` is told: the text of the error, if there was one, and the time.
pub record Update : Type 0 where
  pub folder : Text
  pub count : ℕ
  pub stats : Stats
  pub error : Option Text
  pub now : ℕ

-- The change of the folder's status, by the text of the error
unfoldable pub updated : Update → Option Text → FolderStatus → FolderStatus
updated u (some text) s = record s { last_error = text }
updated u none s = record s {
  last_error = [];
  last_success = some u.now;
  entries = u.count;
  bytes_received = add_int64 s.bytes_received u.stats.bytes_received;
  bytes_reused = add_int64 s.bytes_reused u.stats.bytes_reused;
}

unfoldable pub update : Update → Statuses → Statuses
update u statuses =
    Dict.insert u.folder (updated u u.error (status_or_zero (Dict.lookup u.folder statuses)))
      statuses

is_some : Option ℕ → Bool
is_some none = false
is_some (some n) = true

-- `!status.LastSuccess.IsZero() && status.LastError == ""`
unfoldable pub is_available : FolderStatus → Bool
unfolding is_some
is_available s = is_some s.last_success && s.last_error == []
