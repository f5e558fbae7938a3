-- ===== src/Config/Tests.antt =====
-- A small configuration, and what the theorems on internal/config say of it.
use mathlib.Core.Path.{subst}
use backuply.Base.{
  ℕ, ◌≡◌, ◌↔◌, refl, arith, some, List, [], ◌∷◌, text_eq, get_elem?, All, ◌==◌, if◌then◌else◌,
}
use backuply.Base.Dict
use backuply.Base.Int.{pos}
use backuply.Base.Result.{ok, ok-injective}
use backuply.Text.{Text, codes, has_prefix}
use backuply.Text.Cut.{cut, cut_last, unsnoc}
use backuply.Text.Split.{split, join}
use backuply.Text.Trim.{trim_space, drop_spaces}
use backuply.Config.{Config, Peer, Folder, local}
use backuply.Config.Library.{Library, Files, present, missing}
use backuply.Config.Names.{is_name, is_device_id, match_section}
use backuply.Config.Address.{split_port, atoi, valid_address}
use backuply.Config.Paths.{is_absolute, clean, canonical_path, relative, contains_path}
use backuply.Config.Paths.Below.{IsBelow, IsPlain}
use backuply.Config.Paths.Canonical.{IsClean}
use backuply.Config.Parse.{
  add_section, named_section, open_section, unquoted, set_service, set_peer, set_key, peer_or_zero,
  setting, parse_line, lines_of, parse_lines, read_config,
}
use backuply.Config.Parse.Named.{IsNamed}
use backuply.Config.Parse.Invariant.{read_config-IsNamed}
use backuply.Config.Validate.{
  validate_peers, validate_folder_peers, validate_folders, all_paths, validate_paths, validate,
}
use backuply.Config.Validate.Roots.{AllRoots}
use backuply.Config.Validate.Exact.{IsValidConfig, validate_iff}
use backuply.Config.Validate.Disjoint.{validate-Disjoint}

abbrev library : Library
library = record { unquote = λ t. some t; parse_duration = λ t. some (pos 1000000000) }

-- Only /data is there, a symbolic link to /srv.
abbrev files : Files
files = record {
  lstat = λ p. elim p [
    | [] ↦ missing
    | name ∷ more ↦ if name == codes "data" then present else missing
  ];
  eval_symlinks = λ p. ok (codes "srv" ∷ []);
}

abbrev box : Peer
box = record {
  name = codes "box";
  address = codes "10.0.0.2:24800";
  device_id = codes "0000000000000000000000000000000000000000000000000000000000000000";
}

abbrev photos : Folder
photos = record {
  id = codes "photos";
  path = codes "/data";
  source = local;
  peers = codes "box" ∷ [];
}

abbrev config : Config
config = record {
  listen = codes "127.0.0.1:24800";
  state_dir = codes "/var/lib/backuply";
  scan_interval = pos 1000000000;
  peers = (codes "box", box) ∷ [];
  folders = (codes "photos", photos) ∷ [];
}

srv-IsPlain : IsPlain (codes "srv")
srv-IsPlain = record { ne_dot_dot = λ e. ground (arith, e); lacks = ground arith }

files-IsClean : IsClean files
files-IsClean = record {
  resolved = λ p r h. subst (All IsPlain) (ok-injective h) (srv-IsPlain, tt);
}

validates : validate files config ≡ ok tt
unfolding validate validate_peers validate_folder_peers validate_folders all_paths validate_paths
    valid_address split_port atoi cut cut_last text_eq is_name is_device_id is_absolute clean
    canonical_path relative contains_path has_prefix join split Dict.lookup
validates = refl

validate_iff_example : (validate files config ≡ ok tt) ↔ IsValidConfig files config
validate_iff_example = validate_iff files config files-IsClean

validate-Disjoint_example :
    (roots : List (List Text)) × AllRoots files (all_paths config) roots
    × ((i j : ℕ) (r s t : List Text)
        → get_elem? roots i ≡ some r
        → get_elem? roots j ≡ some s
        → IsBelow r t
        → IsBelow s t
        → i ≡ j)
validate-Disjoint_example = validate-Disjoint files config files-IsClean validates

abbrev text : Text
text = codes "[service]\nlisten = 127.0.0.1:24800\n\n[peer \"box\"]\naddress = 10.0.0.2:24800\n"

abbrev parsed : Config
parsed = record {
  listen = codes "127.0.0.1:24800";
  state_dir = [];
  scan_interval = pos 5000000000;
  peers = (codes "box", record box { device_id = [] }) ∷ [];
  folders = [];
}

reads : read_config library text ≡ ok parsed
unfolding read_config parse_lines parse_line lines_of setting set_key set_service set_peer unquoted
    open_section named_section add_section match_section is_name peer_or_zero split cut unsnoc
    trim_space drop_spaces has_prefix text_eq Dict.lookup Dict.insert
reads = refl

read_config-IsNamed_example : IsNamed parsed
read_config-IsNamed_example = read_config-IsNamed library text parsed reads
