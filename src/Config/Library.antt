-- ===== src/Config/Library.antt =====
-- What internal/config uses of strconv, time and the operating system: the text that a Go string
-- literal stands for, the duration that a text gives, and what is at an absolute path. A path is the
-- list of its elements.
use backuply.Base.{Option, List}
use backuply.Base.Int.{ℤ}
use backuply.Base.Result.{Result}
use backuply.Text.{Text}
use backuply.Config.Error.{Error}

-- strconv.Unquote and time.ParseDuration; none stands for an error.
pub record Library : Type 0 where
  pub unquote : Text → Option Text
  pub parse_duration : Text → Option ℤ

-- What os.Lstat says: a file is there, there is none, or the call fails.
pub data Presence : Type 0 where
  present missing : Presence
  failed : Error → Presence

-- os.Lstat and filepath.EvalSymlinks, while nobody changes the directories
pub record Files : Type 0 where
  pub lstat : List Text → Presence
  pub eval_symlinks : List Text → Result Error (List Text)
