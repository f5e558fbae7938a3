-- ===== src/Config/Validate/Exact.antt =====
-- The configurations that `Validate` accepts.
use backuply.Base.{◌≤◌, ◌≡◌, ◌↔◌, arith, true, List, [], length}
use backuply.Base.Result.{ok}
use backuply.Text.{Text}
use backuply.Config.{Config}
use backuply.Config.Library.{Files}
use backuply.Config.Address.{valid_address}
use backuply.Config.Paths.Canonical.{IsClean}
use backuply.Config.Validate.{long_enough, all_paths, validate}
use backuply.Config.Validate.Tables.{
  NewTo, EachPeer, EachFolder, device_ids, validate_peers_iff, validate_folders_iff,
}
use backuply.Config.Validate.Roots.{AllRoots, ApartFrom, validate_paths_iff}

pub record IsValidConfig (files : Files) (c : Config) : Type 0 where
  pub listen : valid_address c.listen true ≡ true
  pub few_peers : length c.peers ≤ 32
  pub few_folders : length c.folders ≤ 128
  pub interval : long_enough c.scan_interval ≡ true
  pub each_peer : EachPeer c.peers
  pub distinct_devices : NewTo [] (device_ids c.peers)
  pub each_folder : EachFolder c.peers c.folders
  pub roots : List (List Text)
  pub resolved : AllRoots files (all_paths c) roots
  pub apart : ApartFrom [] roots

-- `Validate` accepts exactly the configurations whose address, numbers of peers and folders and
-- interval are within bounds, whose peers and folders are well-formed, whose device IDs are distinct,
-- and whose paths resolve to directories none of which is within another, if resolved symbolic links
-- are clean paths.
pub validate_iff :
    (files : Files) (c : Config)
    → IsClean files
    → (validate files c ≡ ok tt) ↔ IsValidConfig files c
unfolding validate
validate_iff files c fine =
    let peers = validate_peers_iff c.peers [] in
    let folders = validate_folders_iff c.peers c.folders in
    let paths = validate_paths_iff files fine (all_paths c) [] tt in
    (
      λ h.
          let p = peers.0 (ground arith) in
          let r = paths.0 (ground arith) in
          record {
            listen = ground arith;
            few_peers = ground arith;
            few_folders = ground arith;
            interval = ground arith;
            each_peer = p.0;
            distinct_devices = p.1;
            each_folder = folders.0 (ground arith);
            roots = r.0;
            resolved = r.1;
            apart = r.2;
          },
      λ k.
          let p = peers.1 (k.each_peer, k.distinct_devices) in
          let f = folders.1 k.each_folder in
          let r = paths.1 (k.roots, k.resolved, k.apart) in
          ground (arith, k.listen, k.few_peers, k.few_folders, k.interval, p, f, r),
    )
