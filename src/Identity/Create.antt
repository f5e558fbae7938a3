-- ===== src/Identity/Create.antt =====
-- `LoadOrCreate` and `writeExclusive` of internal/identity/identity.go. Key generation, the certificate
-- and their PEM forms are the parameter `generated`, with the period that they get; `now` is the time
-- at which `validateCertificate` looks. A nonce is the random part of a temporary name.
pub mod Kept
pub mod Once
use backuply.Base.{ℕ, Bool, true, false, ◌&&◌, Option, none, some, ◌++◌, if◌then◌else◌}
use backuply.Base.Result.{Result, ok, err}
use backuply.Base.Action.{pure, fail, lift, try, finally, ◌>>=◌, ◌>>◌}
use backuply.Text.{Text, codes}
use backuply.Identity.Error.{Error, not_exist, no_randomness}
use backuply.Identity.Certificate.{Library}
use backuply.Identity.Directory.{
  File, Directory, Act, step, lstat, put, create, remove, cert_name, key_name,
}
use backuply.Identity.Pair.{Identity, or_error}
use backuply.Identity.Load.{KeyLoader, load}

abbrev pub private_file : Text → File
private_file bytes = record { is_regular = true; mode = 0o600; bytes = bytes }

abbrev pub temp_name : Text → Text
temp_name nonce = codes ".identity-" ++ nonce

-- From the temporary file to the name
unfoldable pub publish : Text → Text → Text → Act (Unit {0})
publish temp name bytes = do
  step
  put temp (private_file bytes)
  step
  step
  create name (private_file bytes)
  step
  step

unfoldable pub write_exclusive : Text → Text → Text → Act (Unit {0})
write_exclusive nonce name bytes = do
  create (temp_name nonce) (private_file (codes ""))
  finally (publish (temp_name nonce) name bytes) (remove (temp_name nonce))

-- `os.IsNotExist` of the error
unfoldable pub is_missing : Result Error File → Bool
is_missing (err not_exist) = true
is_missing _ = false

-- `generated` is the PEM of the private key and of the certificate, or none if the random
-- generator fails.
unfoldable pub make : Text → Text → Option (Text × Text) → Act (Unit {0})
unfolding or_error
make nonce nonce' generated = do
  step
  pems ← lift (or_error no_randomness generated)
  write_exclusive nonce key_name pems.0
  write_exclusive nonce' cert_name pems.1

module _ (lib : Library) (load_pair : KeyLoader) (now : ℕ) where
  unfoldable pub load_or_create : Text → Text → Option (Text × Text) → Act Identity
  unfolding is_missing
  load_or_create nonce nonce' generated = do
    cert ← try (lstat cert_name)
    key ← try (lstat key_name)
    if is_missing cert && is_missing key
        then (do make nonce nonce' generated; load lib load_pair now)
        else load lib load_pair now
