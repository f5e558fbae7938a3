-- ===== src/Identity/Error.antt =====
-- The errors of internal/identity/identity.go.
use backuply.Base.{ℕ}
use backuply.Base.Result.{Result}

pub data Error : Type 0 where
  -- a certificate
  not_ed25519 outside_period no_digital_signature not_self_signed not_one_certificate untrusted :
      Error
  -- the files
  incomplete not_regular loose_permissions bad_pair bad_certificate key_not_ed25519 : Error
  -- the operating system and the random generator
  not_exist already_exists no_randomness : Error
  io_error : ℕ → Error

-- A function that returns only an error.
abbrev pub Check : Type 0
Check = Result Error (Unit {0})
