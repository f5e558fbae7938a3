-- ===== src/Transport/Session/Greeting.antt =====
-- The greeting of a session, on a connection that does not fail.
use backuply.Base.{◌≡◌, refl, true, false, some, List, [], ◌∷◌, ◌++◌, text_eq}
use backuply.Base.Result.{ok}
use backuply.Text.{Text}
use backuply.Model.{int_eq}
use backuply.Identity.Certificate.{Certificate}
use backuply.Identity.Tls.{TlsConfig}
use backuply.Transport.Conn.{lift, pure, ◌>>=◌, step}
use backuply.Transport.Frame.Exact.{conn}
use backuply.Transport.Message.{Format}
use backuply.Transport.Exchange.{IsSendable, framed, send_lem, read_lem}
use backuply.Transport.Session.{
  Handshake, hello_message, is_hello, first, welcome, accept, greet, dial, validate_tls,
}

hello-is_hello : is_hello hello_message ≡ true
unfolding is_hello text_eq int_eq
hello-is_hello = refl

-- On a connection that does not fail, whose handshakes succeed with a certificate of the client and
-- with a configuration of the client that `validateTLS` accepts, `Dial` and the start of `serveConn`
-- agree: each side reads exactly the greeting of the other, and the server takes the checksum of the
-- client's certificate for its ID, if the greeting fits its frame and is read back from its JSON.
pub dial-accept :
    (f : Format) (handshake : Handshake) (client server : TlsConfig)
    (certs theirs : List Certificate)
    → (cert : Certificate) (rest more : Text) → IsSendable f hello_message
    → validate_tls (some client) false ≡ ok tt
    → handshake client ≡ ok theirs
    → handshake server ≡ ok (cert ∷ certs)
    → (hello : Text) × (dial f handshake client (conn (hello ++ rest) [])
        ≡ (ok tt, conn rest hello))
      × (accept f handshake server (conn (hello ++ more) [])
          ≡ (ok (f.hash_bytes cert.raw), conn more hello))
unfolding dial greet accept welcome first lift pure step ◌>>=◌
dial-accept f handshake client server certs theirs cert rest more s valid a b = (
  framed f hello_message,
  rw
      (
        valid,
        a,
        send_lem f hello_message (framed f hello_message ++ rest) [] s,
        read_lem f hello_message rest (framed f hello_message) s,
        hello-is_hello,
      )
      refl,
  rw (b, read_lem f hello_message more [] s, hello-is_hello, send_lem f hello_message more [] s)
      refl,
)
