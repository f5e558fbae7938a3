-- ===== src/Daemon/Access.antt =====
-- `authorize`, `List` and `ReadBlock` of internal/daemon/daemon.go, which is the backend of the server.
pub mod Denied
pub mod Granted
use backuply.Base.{
  ℕ, Bool, true, false, Option, none, some, List, [], ◌∷◌, text_eq, ◌==◌, any, if◌then◌else◌,
}
use backuply.Base.Dict
use backuply.Base.Dict.{Dict}
use backuply.Base.Result.{Result, ok, err}
use backuply.Base.Action.{Action, pure, fail, lift, gets, require, ◌>>=◌, ◌>>◌}
use backuply.Text.{Text}
use backuply.Model.{Block, Entry}
use backuply.Config.{Config, Peer, Folder, local}
use backuply.Config.Parse.{peer_or_zero}
use backuply.Store.Error.{Error as StoreError}
use backuply.Store.Codec.{Codec}
use backuply.Store.Exec.{World, Exec, step}
use backuply.Store.Folder.{check_folder}
use backuply.Store.Listing.{list as store_list}
use backuply.Store.Source.{read_block as store_read_block}
use backuply.Transport.Conn.{Error as WireError, backend_error}
use backuply.Transport.Server.{Backend}
use backuply.Daemon.Status.{Statuses, status_or_zero, is_available}

pub data Error : Type 0 where
  access_denied not_available : Error
  in_store : StoreError → Error

-- What the goroutines share: the disk and the index, and the statuses
pub record Shared : Type 0 where
  pub world : World
  pub statuses : Statuses

abbrev pub Act : Type 0 → Type 0
Act A = Action Shared Error A

unfoldable pub from_store : {A : Type 0} → Result StoreError A → Result Error A
from_store (ok a) = ok a
from_store (err e) = err (in_store e)

-- A call of the store
unfoldable pub call : {A : Type 0} → Exec A → Act A
unfolding from_store
call m w = (from_store (m w.world).0, record w { world = (m w.world).1 })

unfoldable pub or_denied : Option Folder → Result Error Folder
or_denied none = err access_denied
or_denied (some f) = ok f

-- `d.cfg.Peers[name].DeviceID`
unfoldable pub device_of : Config → Text → Text
device_of cfg name = (peer_or_zero (Dict.lookup name cfg.peers)).device_id

-- The loop over the folder's peers
unfoldable pub is_peer : Config → Text → Folder → Bool
is_peer cfg peer f = any (λ name. device_of cfg name == peer) f.peers

-- A folder of this device's own, once it was scanned
unfoldable pub check_source : Text → Folder → Act Folder
check_source id f =
    if f.source == local
    then (do
      status ← gets (λ w. status_or_zero (Dict.lookup id w.statuses))
      require (is_available status) not_available
      pure f)
    else pure f

-- An error is answered alike whatever it is.
unfoldable pub to_wire {ℓ} : {A : Type ℓ} → Result Error A → Result WireError A
to_wire (ok a) = ok a
to_wire (err e) = err (backend_error 0)

-- One query, whose rows are then read
unfoldable pub query : Codec → Text → Exec (List Entry)
query c id w = elim (step w).0 [
  | err e ↦ (err e, (step w).1)
  | ok _ ↦ (store_list c id (step w).1.db, (step w).1)
]

module _ (cfg : Config) where
  unfoldable pub authorize : Text → Text → Act Folder
  authorize peer id = do
    f ← lift (or_denied (Dict.lookup id cfg.folders))
    require (is_peer cfg peer f) access_denied
    call (check_folder f.path f.id)
    check_source id f

  module _ (c : Codec) where
    unfoldable pub list : Text → Text → Act (List Entry)
    unfolding query
    list peer id = do f ← authorize peer id; call (query c id)

    unfoldable pub read_block : Text → Text → Text → Text → Block → Act Text
    read_block peer id path hash b = do
      f ← authorize peer id
      call (store_read_block c id f.path path hash b)

    -- The daemon as the server's backend, for one request
    unfoldable pub backend : Shared → Backend
    unfolding to_wire
    backend w = record {
      list = λ peer id. to_wire (list peer id w).0;
      read_block = λ peer id path hash b. to_wire (read_block peer id path hash b w).0;
    }
