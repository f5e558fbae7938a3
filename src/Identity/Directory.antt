-- ===== src/Identity/Directory.antt =====
-- The state directory of a device, and the calls that identity.go makes on it. Each call may fail; a
-- process that is killed has every later call fail. Nobody else works in the directory, whose lock
-- `execute` holds.
use backuply.Base.{ℕ, Bool, Option, none, some, List, [], ◌∷◌, text_eq}
use backuply.Base.Dict
use backuply.Base.Dict.{Dict}
use backuply.Base.Result.{Result, ok, err}
use backuply.Base.Action.{Action, fail, lift, gets, change, ◌>>=◌, ◌>>◌}
use backuply.Text.{Text, codes}
use backuply.Identity.Error.{Error, Check, not_exist, already_exists, io_error}

-- `mode` holds the permission bits.
pub record File : Type 0 where
  pub is_regular : Bool
  pub mode : ℕ
  pub bytes : Text

-- A fault is the errno that the next call returns, or none.
pub record Directory : Type 0 where
  pub files : Dict Text File
  pub faults : List (Option ℕ)

abbrev pub Act : Type 0 → Type 0
Act A = Action Directory Error A

abbrev pub outcome : Option ℕ → Check
outcome none = ok tt
outcome (some errno) = err (io_error errno)

unfoldable pub step_with : List (Option ℕ) → Act (Unit {0})
step_with [] w = (ok tt, w)
step_with (f ∷ faults) w = (outcome f, record w { faults = faults })

-- One call's chance to fail
unfoldable pub step : Act (Unit {0})
unfolding step_with
step w = step_with w.faults w

unfoldable pub or_missing : Option File → Result Error File
or_missing none = err not_exist
or_missing (some f) = ok f

-- os.Lstat, and the reading of a file
unfoldable pub lstat : Text → Act File
unfolding or_missing
lstat name = do step; found ← gets (λ w. Dict.lookup name w.files); lift (or_missing found)

unfoldable pub put : Text → File → Act (Unit {0})
put name f = change (λ w. record w { files = Dict.insert name f w.files })

unfoldable pub add : Text → File → Option File → Act (Unit {0})
unfolding put
add name f none = put name f
add name f (some _) = fail already_exists

-- Only a name that is free is taken, by os.CreateTemp as by os.Link.
unfoldable pub create : Text → File → Act (Unit {0})
unfolding add
create name f = do step; found ← gets (λ w. Dict.lookup name w.files); add name f found

-- os.Remove
unfoldable pub remove : Text → Act (Unit {0})
remove name = do step; change (λ w. record w { files = Dict.erase name w.files })

abbrev pub cert_name : Text
cert_name = codes "cert.pem"

abbrev pub key_name : Text
key_name = codes "key.pem"
