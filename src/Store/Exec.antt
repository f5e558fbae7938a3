-- ===== src/Store/Exec.antt =====
-- Actions of internal/store: they read and change the disk and the index, and fail with an error.
-- Before each step the environment acts: other processes may change the disk, and the step may fail
-- with an errno of its own, or the context may have been cancelled.
pub mod Keeps
pub mod Inversion
use backuply.Base.{ℕ, Bool, Option, none, some, List, [], ◌∷◌, if◌then◌else◌}
use backuply.Base.Result.{Result, ok, err}
use backuply.Store.Error.{Error, io_error}
use backuply.Store.Index.{Db}
use backuply.Store.Disk.{Disk}

pub record Event : Type 0 where
  pub change : Disk → Disk
  pub failure : Option ℕ

pub record World : Type 0 where
  pub disk : Disk
  pub db : Db
  pub events : List Event

abbrev pub Exec : Type 0 → Type 0
Exec A = World → Result Error A × World

module _ {A : Type 0} where
  unfoldable pub pure : A → Exec A
  pure a w = (ok a, w)

  unfoldable pub fail : Error → Exec A
  fail e w = (err e, w)

  -- A pure function that may fail
  unfoldable pub lift : Result Error A → Exec A
  lift r w = (r, w)

  -- A reading, whose `step` has taken place
  unfoldable pub gets : (World → A) → Exec A
  gets f w = (ok (f w), w)

  -- An action whose error the code looks at
  unfoldable pub try : Exec A → Exec (Result Error A)
  try m w = let (r, w') = m w in (ok r, w')

  -- `defer`: the cleanup runs whatever the body returned, and its errors are dropped.
  unfoldable pub finally : Exec A → Exec (Unit {0}) → Exec A
  finally m cleanup w = let (r, w') = m w in (r, (cleanup w').1)

module _ {A B : Type 0} where
  abbrev continue : Result Error A → (A → Exec B) → Exec B
  continue (ok a) f w = f a w
  continue (err e) f w = (err e, w)

  infixl 5 ◌>>=◌
  -- opening this opens the actions above too
  unfoldable pub ◌>>=◌ : Exec A → (A → Exec B) → Exec B
  unfolding pure fail lift gets try finally
  ◌>>=◌ m f w = let (r, w') = m w in continue r f w'

infixl 5 ◌>>◌
abbrev pub ◌>>◌ : {B : Type 0} → Exec (Unit {0}) → Exec B → Exec B
m >> k = m >>= λ _. k

abbrev pub require : Bool → Error → Exec (Unit {0})
require b e = if b then pure tt else fail e

-- A change of the disk, whose `step` has taken place
unfoldable pub change_disk : (Disk → Disk) → Exec (Unit {0})
change_disk f w = (ok tt, record w { disk = f w.disk })

unfoldable pub change_db : Db → Exec (Unit {0})
change_db db w = (ok tt, record w { db = db })

abbrev outcome : Option ℕ → Result Error (Unit {0})
outcome none = ok tt
outcome (some errno) = err (io_error errno)

step_with : List Event → Exec (Unit {0})
step_with [] w = (ok tt, w)
step_with (ev ∷ events) w =
    (outcome ev.failure, record w { disk = ev.change w.disk; events = events })

-- One system call's or statement's chance to be overtaken and to fail; also `ctx.Err()`.
unfoldable pub step : Exec (Unit {0})
unfolding step_with
step w = step_with w.events w
