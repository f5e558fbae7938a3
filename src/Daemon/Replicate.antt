-- ===== src/Daemon/Replicate.antt =====
-- `replicate` of internal/daemon/daemon.go: the folders of one peer, once round. A connection is what
-- the peer answers on it, and the results of further calls of `Dial` are given; `nonce` and `now` are
-- the random part of a temporary name and the time.
pub mod Sorted
pub mod Installs
mod Tests
use backuply.Base.{
  ℕ, ◌+◌, Bool, true, false, Option, none, some, List, [], ◌∷◌, length, if◌then◌else◌,
}
use backuply.Base.Result.{Result, ok, err}
use backuply.Base.Action.{Action, pure, fail, lift, gets, try, change, ◌>>=◌, ◌>>◌}
use backuply.Text.{Text}
use backuply.Model.{Block, Entry, Stats, no_stats, add_int64}
use backuply.Config.{Folder}
use backuply.Store.Error.{Error as StoreError}
use backuply.Store.Codec.{Codec}
use backuply.Store.Folder.{check_folder}
use backuply.Store.Listing.{text_le}
use backuply.Store.Apply.{apply}
use backuply.Transport.Conn.{Error as WireError, closed}
use backuply.Daemon.Status.{Update, update}
use backuply.Daemon.Access.{Error, in_store, Shared, call}

-- An open connection, by what `Client.List` and `Client.ReadBlock` return on it
pub record Client : Type 0 where
  pub list : Text → Result WireError (List Entry)
  pub read_block : Text → Entry → Block → Result StoreError Text

-- The goroutine for a peer: what all share, its connection, and the results of `Dial` to come
pub record Worker : Type 0 where
  pub shared : Shared
  pub client : Option Client
  pub dials : List (Result WireError Client)

pub data Failure : Type 0 where
  of_store : Error → Failure
  of_wire : WireError → Failure

abbrev pub Work : Type 0 → Type 0
Work A = Action Worker Failure A

from_shared : {A : Type 0} → Result Error A → Result Failure A
from_shared (ok a) = ok a
from_shared (err e) = err (of_store e)

from_wire : {A : Type 0} → Result WireError A → Result Failure A
from_wire (ok a) = ok a
from_wire (err e) = err (of_wire e)

unfoldable pub with_shared : {A : Type 0} → Action Shared Error A → Work A
unfolding from_shared
with_shared m w = (from_shared (m w.shared).0, record w { shared = (m w.shared).1 })

-- sort.Slice by path; among equal paths, which no valid index has, its order is not determined.
unfoldable pub insert_entry : Entry → List Entry → List Entry
insert_entry e [] = e ∷ []
insert_entry e (next ∷ es) =
    let rest = insert_entry e es in if text_le e.path next.path then e ∷ next ∷ es else next ∷ rest

unfoldable pub sort_entries : List Entry → List Entry
sort_entries [] = []
sort_entries (e ∷ es) = insert_entry e (sort_entries es)

abbrev pub add_stats : Stats → Stats → Stats
add_stats a b = record {
  files = add_int64 a.files b.files;
  bytes_received = add_int64 a.bytes_received b.bytes_received;
  bytes_reused = add_int64 a.bytes_reused b.bytes_reused;
}

dial_with : List (Result WireError Client) → Work Client
dial_with [] w = (err (of_wire closed), w)
dial_with (ok c ∷ dials) w = (ok c, record w { client = some c; dials = dials })
dial_with (err e ∷ dials) w = (err (of_wire e), record w { client = none; dials = dials })

-- The connection, which is opened if there is none
unfoldable pub connect : Work Client
unfolding dial_with
connect w = elim w.client [ none ↦ dial_with w.dials w | some c ↦ (ok c, w) ]

unfoldable pub close : Work (Unit {0})
close = change (λ w. record w { client = none })

unfoldable pub report : Update → Work (Unit {0})
report u =
    change (λ w. record w { shared = record w.shared { statuses = update u w.shared.statuses } })

-- What a round of the loop over the entries has come to: the error that ended it, and the sums
pub record Outcome : Type 0 where
  pub error : Option Failure
  pub total : Stats

module _ (c : Codec) (text : Failure → Text) (now : Text → ℕ) (nonce : Entry → Text) where
  apply_entry : Folder → Client → Entry → Work Stats
  apply_entry f client e =
      with_shared (call (apply c (nonce e) (some (client.read_block f.id e)) f.id f.path e))

  unfoldable pub apply_entries : Folder → Client → List Entry → Stats → Work Outcome
  unfolding apply_entry
  apply_entries f client [] total = pure (record { error = none; total = total })
  apply_entries f client (e ∷ es) total = do
    r ← try (apply_entry f client e)
    elim r [
      | ok stats ↦ apply_entries f client es (add_stats total stats)
      | err x ↦ pure (record { error = some x; total = total })
    ]

  abbrev pub update_of : Folder → ℕ → Stats → Option Failure → Update
  update_of f count total error = record {
    folder = f.id;
    count = count;
    stats = total;
    error = elim error [ none ↦ none | some x ↦ some (text x) ];
    now = now f.id;
  }

  unfoldable pub close_after : Option Failure → Work (Unit {0})
  close_after none = pure tt
  close_after (some x) = close

  -- From the list of the peer on
  unfoldable pub synchronize : Folder → Client → Result Failure (List Entry) → Work (Unit {0})
  synchronize f client (err x) = do report (update_of f 0 no_stats (some x)); close
  synchronize f client (ok es) = do
    done ← apply_entries f client (sort_entries es) no_stats
    report (update_of f (length es) done.total done.error)
    close_after done.error

  unfoldable pub fetch_folder : Folder → Result Failure Client → Work (Unit {0})
  unfolding from_wire
  fetch_folder f (err x) = report (update_of f 0 no_stats (some x))
  fetch_folder f (ok client) = synchronize f client (from_wire (client.list f.id))

  unfoldable pub check_first : Folder → Result Failure (Unit {0}) → Work (Unit {0})
  check_first f (err x) = report (update_of f 0 no_stats (some x))
  check_first f (ok _) = do r ← try connect; fetch_folder f r

  unfoldable pub replicate_folder : Folder → Work (Unit {0})
  replicate_folder f = do r ← try (with_shared (call (check_folder f.path f.id))); check_first f r

  -- The body of the outer loop, between two ticks
  unfoldable pub replicate : List Folder → Work (Unit {0})
  replicate [] = pure tt
  replicate (f ∷ fs) = do replicate_folder f; replicate fs
