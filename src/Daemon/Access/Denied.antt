-- ===== src/Daemon/Access/Denied.antt =====
-- What a peer gets of a folder that is not shared with it.
use backuply.Base.{
  ◌≡◌, ◌≢◌, refl, ap, arith, inl, inr, true, false, Option, none, some, List, [], ◌∷◌, text_eq,
  ◌==◌, ==_iff, any, contains, Option-cases,
}
use backuply.Base.Dict
use backuply.Base.Int.{pos}
use backuply.Base.Result.{err}
use backuply.Base.Action.{fail, lift, ◌>>=◌}
use backuply.Text.{Text}
use backuply.Model.{Block}
use backuply.Config.{Config, Folder}
use backuply.Store.Codec.{Codec}
use backuply.Transport.Conn.{backend_error}
use backuply.Transport.Message.{Message, Format}
use backuply.Transport.Server.{Backend, handle_request, handle_block}
use backuply.Daemon.Access.{
  access_denied, Shared, or_denied, device_of, is_peer, authorize, list, read_block, backend,
  to_wire,
}

-- None of the folder's peers, if there is such a folder, has the device ID.
abbrev pub IsStranger : Config → Text → Text → Type 0
IsStranger cfg peer id =
    (f : Folder) (name : Text)
    → Dict.lookup id cfg.folders ≡ some f
    → contains name f.peers ≡ true
    → device_of cfg name ≢ peer

none_of :
    (cfg : Config) (peer : Text) (names : List Text)
    → ((name : Text) → contains name names ≡ true → device_of cfg name ≢ peer)
    → any (λ name. device_of cfg name == peer) names ≡ false
none_of cfg peer [] h = refl
none_of cfg peer (x ∷ xs) h =
    let rest = none_of cfg peer xs (λ name k. h name (ground (arith, k))) in
    let head = h x (ground (arith, ==_iff x x)) in
    ground (arith, rest, head, ==_iff (device_of cfg x) peer)

module _ (cfg : Config) (peer id : Text) (stranger : IsStranger cfg peer id) where
  authorize-IsStranger : (w : Shared) → authorize cfg peer id w ≡ (err access_denied, w)
  unfolding authorize or_denied is_peer lift fail ◌>>=◌
  authorize-IsStranger w = elim (Option-cases (Dict.lookup id cfg.folders)) [
    | inl missing ↦ rw missing refl
    | inr (f, found) ↦
        let other = none_of cfg peer f.peers (λ name. stranger f name found) in
        rw (found, other) refl
  ]

-- A peer whose device ID none of a folder's peers has is denied the list and the blocks of the folder,
-- which touches neither the disk nor the index.
pub denied_lem :
    (cfg : Config) (c : Codec) (peer id path hash : Text) (b : Block) (w : Shared)
    → IsStranger cfg peer id
    → (list cfg c peer id w ≡ (err access_denied, w))
      × (read_block cfg c peer id path hash b w ≡ (err access_denied, w))
unfolding list read_block ◌>>=◌
denied_lem cfg c peer id path hash b w stranger =
    let denied = authorize-IsStranger cfg peer id stranger w in (rw denied refl, rw denied refl)

abbrev no_block : Block
no_block = record { offset = pos 0; size = pos 0; hash = [] }

-- A backend that refuses everything
abbrev pub refusing : Backend
refusing = record {
  list = λ peer folder. err (backend_error 0);
  read_block = λ peer folder path hash b. err (backend_error 0);
}

module _ (f : Format) (cfg : Config) (c : Codec) (w : Shared) where
  handle_block-refusing :
      (peer : Text) (m : Message) (b : Option Block)
      → IsStranger cfg peer m.folder
      → handle_block f (backend cfg c w) peer m b ≡ handle_block f refusing peer m b
  unfolding handle_block backend to_wire
  handle_block-refusing peer m none s = refl
  handle_block-refusing peer m (some b) s =
      rw (ap (λ x. x.0) (denied_lem cfg c peer m.folder m.path m.hash b w s).1) refl

-- What a peer that is no peer of the folder gets of it on the wire: to its request for the folder, of
-- whatever kind, the daemon answers exactly as a server that refuses everything.
pub handle_request-refusing :
    (f : Format) (cfg : Config) (c : Codec) (w : Shared) (peer : Text) (m : Message)
    → IsStranger cfg peer m.folder
    → handle_request f (backend cfg c w) peer m ≡ handle_request f refusing peer m
unfolding handle_request
handle_request-refusing f cfg c w peer m s =
    let listed : (backend cfg c w).list peer m.folder ≡ err (backend_error 0) =
      unfold backend to_wire in
      rw (ap (λ x. x.0) (denied_lem cfg c peer m.folder [] [] no_block w s).0) refl in
    rw (listed, handle_block-refusing f cfg c w peer m m.block s) refl
