-- ===== src/Identity/Load.antt =====
-- `Load` of internal/identity/identity.go.
pub mod Exact
use backuply.Base.{ℕ, ◌%◌, Bool, true, false, ◌&&◌, not, Option, none, some, ◌=ℕ◌, if◌then◌else◌}
use backuply.Base.Result.{Result, ok, err}
use backuply.Base.Action.{pure, fail, lift, require, try, ◌>>=◌, ◌>>◌}
use backuply.Text.{Text}
use backuply.Identity.Error.{Error, incomplete, not_regular, loose_permissions, bad_pair}
use backuply.Identity.Certificate.{Library}
use backuply.Identity.Directory.{File, Act, lstat, step, cert_name, key_name}
use backuply.Identity.Pair.{Pair, Identity, or_error, examine}

-- tls.LoadX509KeyPair, on the contents of the two files
abbrev pub KeyLoader : Type 0
KeyLoader = Text → Text → Option Pair

unfoldable pub or_incomplete : Result Error File → Result Error File
or_incomplete (ok f) = ok f
or_incomplete (err e) = err incomplete

-- One round of the loop over the two files; `is_key` tells the key's.
unfoldable pub check_file : Bool → Text → Act (Unit {0})
unfolding or_incomplete
check_file is_key name = do
  found ← try (lstat name)
  info ← lift (or_incomplete found)
  require info.is_regular not_regular
  require (not (is_key && not (info.mode % 64 =ℕ 0))) loose_permissions

module _ (lib : Library) (load_pair : KeyLoader) (now : ℕ) where
  -- The files are read once more, as they were found.
  unfoldable pub load : Act Identity
  unfolding or_error
  load = do
    check_file false cert_name
    check_file true key_name
    cert ← lstat cert_name
    key ← lstat key_name
    pair ← lift (or_error bad_pair (load_pair cert.bytes key.bytes))
    lift (examine lib now pair)
