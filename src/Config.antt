-- ===== src/Config.antt =====
-- internal/config/config.go: the configuration, its file format, and its checks. A Go map is a table
-- here: the order in which Go visits one is not determined, and the tables' order stands for it.
mod Tests
pub mod Error
pub mod Library
pub mod Names
pub mod Address
pub mod Paths
pub mod Parse
pub mod Validate
use backuply.Base.{List, [], text_eq}
use backuply.Base.Dict.{Dict}
use backuply.Base.Int.{ℤ, pos}
use backuply.Text.{Text, codes}

pub record Peer : Type 0 where
  pub name : Text
  pub address : Text
  pub device_id : Text

pub record Folder : Type 0 where
  pub id : Text
  pub path : Text
  pub source : Text
  pub peers : List Text

-- `scan_interval` is a time.Duration, in nanoseconds.
pub record Config : Type 0 where
  pub listen : Text
  pub state_dir : Text
  pub scan_interval : ℤ
  pub peers : Dict Text Peer
  pub folders : Dict Text Folder

-- What `Parse` starts from
abbrev pub default_config : Config
default_config = record {
  listen = codes "127.0.0.1:24800";
  state_dir = [];
  scan_interval = pos 5000000000;
  peers = [];
  folders = [];
}

abbrev pub no_peer : Peer
no_peer = record { name = []; address = []; device_id = [] }

abbrev pub no_folder : Folder
no_folder = record { id = []; path = []; source = []; peers = [] }

abbrev pub local : Text
local = codes "local"
