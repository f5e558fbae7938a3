-- ===== src/Command.antt =====
-- `execute` of cmd/backuply/main.go: which operation the arguments ask for, and with which
-- configuration. What the package flag makes of the arguments, and reading the configuration file,
-- are parameters.
mod Tests
pub mod Checked
use mathlib.Core.List.{reverse}
use backuply.Base.{
  ℕ, Bool, true, false, ◌||◌, not, Option, none, some, List, [], ◌∷◌, ◌=ℕ◌, text_eq, ◌==◌, contains,
  if◌then◌else◌,
}
use backuply.Base.Dict
use backuply.Base.Dict.{Dict}
use backuply.Base.Int.{pos}
use backuply.Base.Result.{Result, ok, err, ◌>>=◌, ◌>>◌, guard}
use backuply.Text.{Text, codes}
use backuply.Text.Split.{join}
use backuply.Store.Path.{slash}
use backuply.Config.{Config}
use backuply.Config.Error.{Error as ConfigError}
use backuply.Config.Paths.{is_absolute, clean}

pub data Error : Type 0 where
  no_command unknown_command unexpected_arguments relative_state_dir both_given : Error
  bad_flags : Error
  bad_config : ConfigError → Error

-- What `flags.Parse` leaves: the flags that were given, with their values, and how many arguments are
-- left
pub record Flags : Type 0 where
  pub given : Dict Text Text
  pub left : ℕ

-- The help was asked for, or the arguments do not parse, or they do.
pub data Parsed : Type 0 where
  help failed : Parsed
  parsed : Flags → Parsed

-- What is run in the end
pub data Plan : Type 0 where
  show_usage show_version nothing report_ok : Plan
  initialize : Config → Plan
  show_id : Config → Plan
  query_status : Config → Plan
  run_daemon : Config → Plan

abbrev pub default_config : Text
default_config = codes "/etc/backuply/backuply.conf"

abbrev pub commands : List Text
commands = codes "run" ∷ codes "init" ∷ codes "id" ∷ codes "check" ∷ codes "status" ∷ []

-- The flags that are defined before the arguments are parsed
unfoldable pub flag_names : Text → List Text
flag_names command =
    if command == codes "init" || command == codes "id"
    then codes "config" ∷ codes "state-dir" ∷ []
    else codes "config" ∷ []

abbrev pub or_default : Text → Option Text → Text
or_default default none = default
or_default default (some value) = value

-- A flag's value, with its default
unfoldable pub flag_value : Text → Text → Flags → Text
flag_value name default flags = or_default default (Dict.lookup name flags.given)

-- Whether `Visit` comes across the flag
unfoldable pub was_given : Text → Flags → Bool
was_given name flags = elim (Dict.lookup name flags.given) [ none ↦ false | some v ↦ true ]

abbrev pub state_dir_of : Flags → Text
state_dir_of flags = flag_value (codes "state-dir") [] flags

-- The configuration with a state directory only
abbrev pub only_state_dir : Text → Config
only_state_dir dir = record {
  listen = [];
  state_dir = slash ∷ join slash (reverse (clean dir));
  scan_interval = pos 0;
  peers = [];
  folders = [];
}

-- The last switch
unfoldable pub plan_of : Text → Config → Plan
plan_of command cfg =
    if command == codes "check"
    then report_ok
    else if command == codes "init"
    then initialize cfg
    else if command == codes "id"
    then show_id cfg
    else if command == codes "status"
    then query_status cfg
    else run_daemon cfg

or_bad_config : Result ConfigError Config → Result Error Config
or_bad_config (ok cfg) = ok cfg
or_bad_config (err e) = err (bad_config e)

module _ (load : Text → Result ConfigError Config) where
  -- From the flags to the configuration
  unfoldable pub configuration : Flags → Result Error Config
  unfolding or_bad_config
  configuration flags =
      if not (state_dir_of flags == [])
      then (do
        guard (is_absolute (state_dir_of flags)) relative_state_dir
        guard (not (was_given (codes "config") flags)) both_given
        ok (only_state_dir (state_dir_of flags)))
      else or_bad_config (load (flag_value (codes "config") default_config flags))

  unfoldable pub with_flags : Text → Parsed → Result Error Plan
  with_flags command help = ok nothing
  with_flags command failed = err bad_flags
  with_flags command (parsed flags) = do
    guard (flags.left =ℕ 0) unexpected_arguments
    cfg ← configuration flags
    ok (plan_of command cfg)

  -- `parse` is `Parse` of a set with the flags of the given names, each of which takes a text.
  unfoldable pub execute : (List Text → List Text → Parsed) → List Text → Result Error Plan
  execute parse [] = err no_command
  execute parse (command ∷ args) =
      if command == codes "help" || command == codes "-h" || command == codes "--help"
      then ok show_usage
      else if command == codes "version"
      then ok show_version
      else if contains command commands
      then with_flags command (parse (flag_names command) args)
      else err unknown_command
