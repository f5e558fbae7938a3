-- ===== src/Transport/Conn.antt =====
-- One side of a connection, behind the TLS handshake: the bytes that the peer has sent and will send,
-- and what was written to it. Each call may fail, as on a timeout or when the context ends.
pub mod Inversion
pub mod Reads
use backuply.Base.{
  ℕ, Bool, Option, none, some, List, [], ◌∷◌, ◌++◌, leb, length, take, drop, if◌then◌else◌,
}
use backuply.Base.Result.{Result, ok, err}
use backuply.Text.{Text}

pub data Error : Type 0 where
  closed bad_frame_size frame_too_long bad_json invalid_request too_much_metadata unknown_request
        rejected unexpected_response invalid_index invalid_block bad_block_length block_mismatch
        too_many_entries bad_size bad_tls no_certificate unsupported_protocol :
      Error
  net_error backend_error : ℕ → Error

-- A fault is the error that the next call returns, or none.
pub record Conn : Type 0 where
  pub input : Text
  pub output : Text
  pub faults : List (Option Error)

abbrev pub Io : Type 0 → Type 0
Io A = Conn → Result Error A × Conn

module _ {A : Type 0} where
  unfoldable pub pure : A → Io A
  pure a w = (ok a, w)

  unfoldable pub fail : Error → Io A
  fail e w = (err e, w)

  -- A pure function that may fail
  unfoldable pub lift : Result Error A → Io A
  lift r w = (r, w)

module _ {A B : Type 0} where
  abbrev continue : Result Error A → (A → Io B) → Io B
  continue (ok a) f w = f a w
  continue (err e) f w = (err e, w)

  infixl 5 ◌>>=◌
  -- opening this opens the actions above too
  unfoldable pub ◌>>=◌ : Io A → (A → Io B) → Io B
  unfolding pure fail lift
  ◌>>=◌ m f w = let (r, w') = m w in continue r f w'

infixl 5 ◌>>◌
abbrev pub ◌>>◌ : {B : Type 0} → Io (Unit {0}) → Io B → Io B
m >> k = m >>= λ _. k

abbrev pub require : Bool → Error → Io (Unit {0})
require b e = if b then pure tt else fail e

abbrev outcome : Option Error → Result Error (Unit {0})
outcome none = ok tt
outcome (some e) = err e

step_with : List (Option Error) → Io (Unit {0})
step_with [] w = (ok tt, w)
step_with (f ∷ faults) w = (outcome f, record w { faults = faults })

-- One call's chance to fail
unfoldable pub step : Io (Unit {0})
unfolding step_with
step w = step_with w.faults w

-- io.ReadFull: what is missing never comes.
take_input : ℕ → Io Text
take_input n w =
    if leb n (length w.input)
    then (ok (take n w.input), record w { input = drop n w.input })
    else (err closed, w)

unfoldable pub read_full : ℕ → Io Text
unfolding take_input
read_full n = do step; take_input n

-- Bytes for the peer, which the buffered writer passes on.
add_output : Text → Io (Unit {0})
add_output b w = (ok tt, record w { output = w.output ++ b })

unfoldable pub write_all : Text → Io (Unit {0})
unfolding add_output
write_all b = do step; add_output b
