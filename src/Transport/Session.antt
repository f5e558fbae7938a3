-- ===== src/Transport/Session.antt =====
-- Sessions of internal/transport/transport.go: `validateTLS`, the start of `serveConn` and its loop, and
-- `Dial`. The handshake of crypto/tls is a parameter, with the peer's certificates as its result.
mod Tests
pub mod Peers
pub mod Greeting
pub mod Loop
use backuply.Base.{
  ℕ, zero, suc, Bool, true, false, ◌&&◌, ◌||◌, not, Option, none, some, List, [], ◌∷◌, ltb, text_eq,
  ◌==◌, if◌then◌else◌,
}
use backuply.Base.Int.{ℤ, pos}
use backuply.Base.Result.{Result, ok, err}
use backuply.Text.{Text, codes}
use backuply.Model.{int_eq}
use backuply.Identity.Error.{Check}
use backuply.Identity.Certificate.{Certificate}
use backuply.Identity.Tls.{
  ClientAuth, require_any_client_cert, require_and_verify_client_cert, TlsConfig, version_tls13,
}
use backuply.Transport.Conn.{
  Conn, Io, Error, pure, fail, lift, ◌>>=◌, ◌>>◌, require, step, bad_tls, no_certificate,
  unsupported_protocol,
}
use backuply.Transport.Message.{Message, message, Format, read, send, version}
use backuply.Transport.Server.{Backend, serve_request}

unfoldable pub is_require_any : ClientAuth → Bool
is_require_any require_any_client_cert = true
is_require_any _ = false

unfoldable pub is_require_verified : ClientAuth → Bool
is_require_verified require_and_verify_client_cert = true
is_require_verified _ = false

unfoldable pub is_nil : Option (List Certificate → Check) → Bool
is_nil none = true
is_nil (some f) = false

-- The conditions of `validateTLS` behind the minimum version
unfoldable pub authenticates : TlsConfig → Bool → Bool
authenticates config server =
    if server
    then is_require_verified config.client_auth
      || (is_require_any config.client_auth && not (is_nil config.verify_connection))
    else not (config.insecure_skip_verify && is_nil config.verify_connection)

unfoldable pub validate_tls : Option TlsConfig → Bool → Result Error (Unit {0})
validate_tls none server = err bad_tls
validate_tls (some config) server =
    if not (ltb config.min_version version_tls13) && authenticates config server
    then ok tt
    else err bad_tls

abbrev pub Handshake : Type 0
Handshake = TlsConfig → Result Error (List Certificate)

abbrev pub hello_message : Message
hello_message = record (message (codes "hello")) { version = pos version }

unfoldable pub is_hello : Message → Bool
is_hello m = m.kind == codes "hello" && m.version == pos version

unfoldable pub first : List Certificate → Result Error Certificate
first [] = err no_certificate
first (cert ∷ certs) = ok cert

module _ (f : Format) where
  -- The server's side of the greeting
  unfoldable pub welcome : Io (Unit {0})
  welcome = do
    (hello, n) ← read f
    require (is_hello hello) unsupported_protocol
    send f hello_message

  -- `serveConn` up to its loop: the peer's ID
  unfoldable pub accept : Handshake → TlsConfig → Io Text
  accept handshake config = do
    step
    certs ← lift (handshake config)
    cert ← lift (first certs)
    welcome
    pure (f.hash_bytes cert.raw)

  -- The loop of `serveConn`, which only an error ends; `rounds` bounds the requests.
  unfoldable pub serve_requests : ℕ → Backend → Text → Io (Unit {0})
  serve_requests zero backend peer = pure tt
  serve_requests (suc rounds) backend peer = do
    serve_request f backend peer
    serve_requests rounds backend peer

  unfoldable pub serve_conn : ℕ → Handshake → TlsConfig → Backend → Io (Unit {0})
  serve_conn rounds handshake config backend = do
    peer ← accept handshake config
    serve_requests rounds backend peer

  -- The client's side of the greeting
  unfoldable pub greet : Io (Unit {0})
  greet = do
    send f hello_message
    (hello, n) ← read f
    require (is_hello hello) unsupported_protocol

  unfoldable pub dial : Handshake → TlsConfig → Io (Unit {0})
  dial handshake config = do
    lift (validate_tls (some config) false)
    step
    certs ← lift (handshake config)
    step
    greet
