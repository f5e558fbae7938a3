-- ===== src/Identity/Certificate.antt =====
-- `validateCertificate`, `fingerprint` and `verifyPeer` of internal/identity/identity.go. Times are
-- counted from some epoch; crypto/x509 and SHA-256 are parameters.
pub mod Pinned
use backuply.Base.{
  ℕ, ◌%◌, Bool, true, false, ◌&&◌, ◌||◌, not, Option, none, some, List, [], ◌∷◌, ◌=ℕ◌, ltb, text_eq,
  if◌then◌else◌,
}
use backuply.Base.Dict
use backuply.Base.Dict.{Dict}
use backuply.Base.Result.{ok, err, ◌>>=◌, ◌>>◌, guard}
use backuply.Text.{Text}
use backuply.Identity.Error.{
  Error, Check, not_ed25519, outside_period, no_digital_signature, not_self_signed,
  not_one_certificate, untrusted,
}

pub data Algorithm : Type 0 where
  ed25519 other_algorithm : Algorithm

-- What is used of an x509.Certificate; `raw` is its DER form.
pub record Certificate : Type 0 where
  pub raw : Text
  pub algorithm : Algorithm
  pub not_before : ℕ
  pub not_after : ℕ
  pub key_usage : ℕ

-- Certificate.CheckSignature of a certificate with itself, x509.ParseCertificate, and the lower-case
-- hexadecimal SHA-256
pub record Library : Type 0 where
  pub check_signature : Certificate → Bool
  pub parse_certificate : Text → Option Certificate
  pub hash_bytes : Text → Text

unfoldable pub is_ed25519 : Algorithm → Bool
is_ed25519 ed25519 = true
is_ed25519 other_algorithm = false

module _ (lib : Library) where
  unfoldable pub fingerprint : Text → Text
  fingerprint der = lib.hash_bytes der

  -- x509.KeyUsageDigitalSignature is the lowest bit.
  unfoldable pub validate_certificate : ℕ → Certificate → Check
  unfolding is_ed25519
  validate_certificate now cert = do
    guard (is_ed25519 cert.algorithm) not_ed25519
    guard (not (ltb now cert.not_before || ltb cert.not_after now)) outside_period
    guard (not (cert.key_usage % 2 =ℕ 0)) no_digital_signature
    guard (lib.check_signature cert) not_self_signed

  -- The map that the loop of `ServerTLS` fills
  unfoldable pub allow : List Text → Dict Text Bool → Dict Text Bool
  allow [] allowed = allowed
  allow (id ∷ ids) allowed = allow ids (Dict.insert id true allowed)

  -- `allowed[id]`
  unfoldable pub is_allowed : Dict Text Bool → Text → Bool
  is_allowed allowed id = elim (Dict.lookup id allowed) [ none ↦ false | some b ↦ b ]

  -- `verifyPeer`, on the certificates of the connection
  unfoldable pub verify_peer : ℕ → Dict Text Bool → List Certificate → Check
  verify_peer now allowed (cert ∷ []) = do
    validate_certificate now cert
    guard (is_allowed allowed (fingerprint cert.raw)) untrusted
  verify_peer now allowed _ = err not_one_certificate
