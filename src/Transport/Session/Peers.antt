-- ===== src/Transport/Session/Peers.antt =====
-- Who is at the other end of a session.
use backuply.Base.{
  ℕ, ◌≤◌, ◌≡◌, ◌≢◌, ◌⊎◌, ◌↔◌, inr, refl, sym, ap, ◌∙◌, arith, Bool, true, false, Option, none, some,
  List, [], ◌∷◌, text_eq, contains,
}
use mathlib.Core.Path.{subst}
use backuply.Base.Result.{ok, ok-injective}
use backuply.Text.{Text}
use backuply.Identity.Certificate.{Certificate, Library, fingerprint}
use backuply.Identity.Certificate.Pinned.{IsPinned}
use backuply.Identity.Tls.{
  ClientAuth, no_client_cert, request_client_cert, require_any_client_cert,
  verify_client_cert_if_given, require_and_verify_client_cert, TlsConfig, version_tls13, server_tls,
  client_tls,
}
use backuply.Identity.Tls.Pins.{verify, verify_iff}
use backuply.Transport.Conn.{Conn, lift, step}
use backuply.Transport.Conn.Inversion.{bind-ok, pure-ok}
use backuply.Transport.Message.{Format}
use backuply.Transport.Session.{
  Handshake, is_require_any, is_require_verified, is_nil, authenticates, validate_tls, first,
  welcome, accept, dial,
}

-- crypto/tls calls VerifyConnection in each handshake, and a handshake that it refuses fails.
pub record IsVerifying (handshake : Handshake) : Type 0 where
  pub verified :
      (config : TlsConfig) (certs : List Certificate)
      → handshake config ≡ ok certs
      → verify config certs ≡ ok tt

-- TLS 1.3, and a check of who the peer is: by its certificate authority, or by VerifyConnection
abbrev pub IsAuthenticated : TlsConfig → Bool → Type 0
IsAuthenticated config true =
    (version_tls13 ≤ config.min_version)
    × ((config.client_auth ≡ require_and_verify_client_cert)
        ⊎ ((config.client_auth ≡ require_any_client_cert) × (config.verify_connection ≢ none)))
IsAuthenticated config false =
    (version_tls13 ≤ config.min_version)
    × ((config.insecure_skip_verify ≡ false) ⊎ (config.verify_connection ≢ none))

is_require_any_iff : (a : ClientAuth) → (is_require_any a ≡ true) ↔ (a ≡ require_any_client_cert)
unfolding is_require_any
is_require_any_iff no_client_cert = (λ h. cc, λ h. cc)
is_require_any_iff request_client_cert = (λ h. cc, λ h. cc)
is_require_any_iff require_any_client_cert = (λ _. refl, λ _. refl)
is_require_any_iff verify_client_cert_if_given = (λ h. cc, λ h. cc)
is_require_any_iff require_and_verify_client_cert = (λ h. cc, λ h. cc)

is_require_verified_iff :
    (a : ClientAuth) → (is_require_verified a ≡ true) ↔ (a ≡ require_and_verify_client_cert)
unfolding is_require_verified
is_require_verified_iff no_client_cert = (λ h. cc, λ h. cc)
is_require_verified_iff request_client_cert = (λ h. cc, λ h. cc)
is_require_verified_iff require_any_client_cert = (λ h. cc, λ h. cc)
is_require_verified_iff verify_client_cert_if_given = (λ h. cc, λ h. cc)
is_require_verified_iff require_and_verify_client_cert = (λ _. refl, λ _. refl)

is_nil_iff : (o : Option _) → (is_nil o ≡ false) ↔ (o ≢ none)
unfolding is_nil
is_nil_iff none = (λ h. cc, λ h. absurd (h refl))
is_nil_iff (some f) = (λ _ e. cc, λ _. refl)

-- `validateTLS` accepts exactly the configurations that ask for TLS 1.3 at least and check the peer: a
-- server's by verified client certificates, or by any that VerifyConnection then checks, and a
-- client's by the usual verification, or by VerifyConnection in its place.
pub validate_tls_iff :
    (config : TlsConfig) (server : Bool)
    → (validate_tls (some config) server ≡ ok tt) ↔ IsAuthenticated config server
unfolding validate_tls authenticates
validate_tls_iff config true =
    let (a, a') = is_require_any_iff config.client_auth in
    let (v, v') = is_require_verified_iff config.client_auth in
    let (n, n') = is_nil_iff config.verify_connection in
    (λ h. (ground arith, ground (arith, h, a, v, n)), λ k. ground (arith, k, a', v', n'))
validate_tls_iff config false =
    let (n, n') = is_nil_iff config.verify_connection in
    (λ h. (ground arith, ground (arith, h, n)), λ k. ground (arith, k, n'))

first-pinned :
    (lib : Library) (now : ℕ) (ids : List Text) (certs : List Certificate) (cert : Certificate)
    → IsPinned lib now ids certs
    → first certs ≡ ok cert
    → contains (fingerprint lib cert.raw) ids ≡ true
unfolding first
first-pinned lib now ids certs cert pinned h =
    let same : pinned.cert ≡ cert = ok-injective (ap first (sym pinned.single) ∙ h) in
    subst (λ c. contains (fingerprint lib c.raw) ids ≡ true) same pinned.among

-- With a device's own configurations, which `validateTLS` accepts: the ID of the peer of a session that
-- the server has accepted is one of the allowed IDs, and a client that `Dial` returns talks to a peer
-- with one certificate that is valid and bears the expected ID, if crypto/tls calls VerifyConnection
-- and both packages compute the same checksum.
pub session-IsPinned :
    (f : Format) (lib : Library) (handshake : Handshake) (now : ℕ)
    → (chain ids : List Text) (expected peer : Text) (w v w' v' : Conn) → IsVerifying handshake
    → ((b : Text) → f.hash_bytes b ≡ lib.hash_bytes b)
    → accept f handshake (server_tls lib now chain ids) w ≡ (ok peer, w')
    → dial f handshake (client_tls lib now chain expected) v ≡ (ok tt, v')
    → (validate_tls (some (server_tls lib now chain ids)) true ≡ ok tt)
      × (contains peer ids ≡ true)
      × (certs : List Certificate) × (handshake (client_tls lib now chain expected) ≡ ok certs)
      × IsPinned lib now (expected ∷ []) certs
unfolding accept dial lift fingerprint
session-IsPinned f lib handshake now chain ids expected peer w v w' v' tls same h k =
    let (_, w1, _, h1) = bind-ok step _ w h in
    let (certs, w2, shaken, h2) =
      bind-ok (lift (handshake (server_tls lib now chain ids))) _ w1 h1 in
    let (cert, w3, head, h3) = bind-ok (lift (first certs)) _ w2 h2 in
    let (_, w4, _, h4) = bind-ok (welcome f) _ w3 h3 in
    let id = pure-ok (f.hash_bytes cert.raw) w4 h4 in
    let verified = tls.verified _ certs (ap (λ x. x.0) shaken) in
    let pinned = (verify_iff lib now chain ids expected certs).0.0 verified in
    let among = first-pinned lib now ids certs cert pinned (ap (λ x. x.0) head) in
    let (_, v1, _, k1) =
      bind-ok (lift (validate_tls (some (client_tls lib now chain expected)) false)) _ v k in
    let (_, v2, _, k2) = bind-ok step _ v1 k1 in
    let (certs', v3, shaken', k3) =
      bind-ok (lift (handshake (client_tls lib now chain expected))) _ v2 k2 in
    let verified' = tls.verified _ certs' (ap (λ x. x.0) shaken') in
    (
      (validate_tls_iff (server_tls lib now chain ids) true).1
          (unfold server_tls in (omega arith, inr (refl, λ e. cc))),
      subst (λ t. contains t ids ≡ true) (sym (same cert.raw) ∙ id) among,
      certs',
      ap (λ x. x.0) shaken',
      (verify_iff lib now chain ids expected certs').1.0 verified',
    )
