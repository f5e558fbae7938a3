-- ===== src/Identity/Tls.antt =====
-- `ServerTLS` and `ClientTLS` of internal/identity/identity.go: what they set of a tls.Config.
pub mod Pins
use backuply.Base.{ℕ, Bool, true, false, Option, none, some, List, [], ◌∷◌}
use backuply.Text.{Text}
use backuply.Identity.Error.{Check}
use backuply.Identity.Certificate.{Certificate, Library, allow, verify_peer}

pub data ClientAuth : Type 0 where
  no_client_cert request_client_cert require_any_client_cert verify_client_cert_if_given
        require_and_verify_client_cert :
      ClientAuth

-- tls.VersionTLS13
abbrev pub version_tls13 : ℕ
version_tls13 = 0x0304

-- `verify_connection` is called on the peer's certificates; none stands for nil.
pub record TlsConfig : Type 0 where
  pub min_version : ℕ
  pub certificates : List (List Text)
  pub client_auth : ClientAuth
  pub insecure_skip_verify : Bool
  pub verify_connection : Option (List Certificate → Check)

module _ (lib : Library) where
  -- `now` is the time of the handshake; `chain` is the identity's certificate.
  unfoldable pub server_tls : ℕ → List Text → List Text → TlsConfig
  server_tls now chain allowed_ids = record {
    min_version = version_tls13;
    certificates = chain ∷ [];
    client_auth = require_any_client_cert;
    insecure_skip_verify = false;
    verify_connection = some (verify_peer lib now (allow lib allowed_ids []));
  }

  unfoldable pub client_tls : ℕ → List Text → Text → TlsConfig
  client_tls now chain expected_id = record {
    min_version = version_tls13;
    certificates = chain ∷ [];
    client_auth = no_client_cert;
    insecure_skip_verify = true;
    verify_connection = some (verify_peer lib now ((expected_id, true) ∷ []));
  }
