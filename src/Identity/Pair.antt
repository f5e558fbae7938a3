-- ===== src/Identity/Pair.antt =====
-- What `Load` of internal/identity/identity.go asks of the pair that it has read.
pub mod Examined
use backuply.Base.{ℕ, Option, none, some, List, [], ◌∷◌}
use backuply.Base.Result.{Result, ok, err, ◌>>=◌, ◌>>◌, guard}
use backuply.Text.{Text}
use backuply.Identity.Error.{Error, bad_certificate, not_one_certificate, key_not_ed25519}
use backuply.Identity.Certificate.{
  Algorithm, is_ed25519, Certificate, Library, fingerprint, validate_certificate,
}

-- What tls.LoadX509KeyPair returns: the chain of certificates, and what kind its key is of.
pub record Pair : Type 0 where
  pub chain : List Text
  pub key : Algorithm

pub record Identity : Type 0 where
  pub pair : Pair
  pub leaf : Certificate
  pub id : Text

unfoldable pub or_error {ℓ} : {A : Type ℓ} → Error → Option A → Result Error A
or_error e none = err e
or_error e (some a) = ok a

unfoldable pub the_certificate : List Text → Result Error Text
the_certificate (der ∷ []) = ok der
the_certificate _ = err not_one_certificate

unfoldable pub examine : Library → ℕ → Pair → Result Error Identity
unfolding the_certificate or_error
examine lib now pair = do
  der ← the_certificate pair.chain
  leaf ← or_error bad_certificate (lib.parse_certificate der)
  validate_certificate lib now leaf
  guard (is_ed25519 pair.key) key_not_ed25519
  ok (record { pair = pair; leaf = leaf; id = fingerprint lib leaf.raw })
