-- ===== src/Transport/Session/Tests.antt =====
-- A session, and what the theorems on the sessions of internal/transport say of it.
use mathlib.Core.Path.{subst}
use backuply.Base.{
  ◌≡◌, ◌<◌, refl, arith, true, false, some, List, [], ◌∷◌, ◌++◌, length, text_eq, contains,
}
use backuply.Base.Dict
use backuply.Base.Result.{Result, ok, err, ok-injective}
use backuply.Text.{Text, codes}
use backuply.Model.{int_eq}
use backuply.Identity.Error.{Check}
use backuply.Identity.Certificate.{
  Certificate, Library, ed25519, is_ed25519, fingerprint, validate_certificate, allow, is_allowed,
  verify_peer,
}
use backuply.Identity.Certificate.Pinned.{IsPinned}
use backuply.Identity.Tls.{server_tls, client_tls}
use backuply.Identity.Tls.Pins.{verify}
use backuply.Transport.Conn.{Error, lift, pure, ◌>>=◌, step, read_full, write_all, closed}
use backuply.Transport.Frame.{read_frame, write_frame, put_uint32, uint32}
use backuply.Transport.Frame.Exact.{conn}
use backuply.Transport.Message.{Format, read, write, send}
use backuply.Base.{◌⊎◌}
use backuply.Transport.Server.{Backend}
use backuply.Transport.Exchange.{IsSendable}
use backuply.Transport.Serve.{
  Server, start, Run, done, next, arrive, accept, cancel, on_arrive, on_accept, on_cancel, on_stop,
  Due, Ends,
}
use backuply.Transport.Serve.Sessions.{IsSafe, reachable-IsSafe}
use backuply.Transport.Serve.Ending.{run-Ends}
use backuply.Transport.Session
use backuply.Transport.Session.{
  Handshake, hello_message, is_hello, first, welcome, greet, dial, validate_tls, authenticates,
  is_nil, is_require_any, is_require_verified, serve_requests,
}
use backuply.Transport.Session.Peers.{IsVerifying, session-IsPinned}
use backuply.Transport.Session.Greeting.{dial-accept}
use backuply.Transport.Session.Loop.{serve_requests-ends}

abbrev cert : Certificate
cert = record {
  raw = codes "der";
  algorithm = ed25519;
  not_before = 10;
  not_after = 20;
  key_usage = 1;
}

abbrev library : Library
library = record {
  check_signature = λ c. true;
  parse_certificate = λ der. some cert;
  hash_bytes = λ b. codes "id of " ++ b;
}

abbrev device : Text
device = codes "id of der"

abbrev format : Format
format = record {
  marshal = λ m. codes "hi";
  unmarshal = λ t. some hello_message;
  hash_bytes = λ b. codes "id of " ++ b;
}

-- The handshake shows that certificate, and fails if VerifyConnection refuses it.
abbrev judged : Check → Result Error (List Certificate)
judged (ok _) = ok (cert ∷ [])
judged (err e) = err closed

abbrev handshake : Handshake
handshake config = judged (verify config (cert ∷ []))

judged-ok :
    (r : Check) (certs : List Certificate) → judged r ≡ ok certs → (r ≡ ok tt) × (cert ∷ [] ≡ certs)
judged-ok (ok tt) certs h = (refl, ok-injective h)
judged-ok (err e) certs h = cc

handshake-IsVerifying : IsVerifying handshake
handshake-IsVerifying = record {
  verified = λ config certs h.
      let (fine, same) = judged-ok (verify config (cert ∷ [])) certs h in
      subst (λ x. verify config x ≡ ok tt) same fine;
}

hello-IsSendable : IsSendable format hello_message
hello-IsSendable = record { decoded = refl; some_bytes = omega arith; short = omega arith }

-- The frame of a greeting
abbrev hello : Text
hello = 0 ∷ 0 ∷ 0 ∷ 2 ∷ codes "hi"

accepts :
    Session.accept format handshake (server_tls library 15 [] (device ∷ [])) (conn hello [])
    ≡ (ok device, conn [] hello)
unfolding Session.accept welcome first is_hello lift pure step read send read_frame write_frame
    read_full write write_all put_uint32 uint32 text_eq int_eq verify server_tls verify_peer allow
    is_allowed validate_certificate is_ed25519 fingerprint Dict.lookup Dict.insert ◌>>=◌
accepts = refl

dials :
    dial format handshake (client_tls library 15 [] device) (conn hello []) ≡ (ok tt, conn [] hello)
unfolding dial greet validate_tls authenticates is_nil is_hello lift pure step read send read_frame
    write_frame read_full write write_all put_uint32 uint32 text_eq int_eq verify client_tls
    verify_peer is_allowed validate_certificate is_ed25519 fingerprint Dict.lookup ◌>>=◌
dials = refl

own_tls : validate_tls (some (client_tls library 15 [] device)) false ≡ ok tt
unfolding validate_tls authenticates is_nil client_tls
own_tls = refl

abbrev backend : Backend
backend = record { list = λ p f. err closed; read_block = λ p f q h b. err closed }

session-IsPinned_example :
    (validate_tls (some (server_tls library 15 [] (device ∷ []))) true ≡ ok tt)
    × (contains device (device ∷ []) ≡ true)
    × (certs : List Certificate) × (handshake (client_tls library 15 [] device) ≡ ok certs)
    × IsPinned library 15 (device ∷ []) certs
session-IsPinned_example =
    session-IsPinned format library handshake 15 [] (device ∷ []) device device (conn hello [])
      (conn hello []) (conn [] hello) (conn [] hello) handshake-IsVerifying (λ b. refl) accepts
      dials

dial-accept_example :
    (greeting : Text) × (dial format
        (λ config. ok (cert ∷ []))
        (client_tls library 15 [] device)
        (conn (greeting ++ []) [])
      ≡ (ok tt, conn [] greeting))
    × (Session.accept format
          (λ config. ok (cert ∷ []))
          (server_tls library 15 [] (device ∷ []))
          (conn (greeting ++ codes "x") [])
        ≡ (ok device, conn (codes "x") greeting))
dial-accept_example =
    dial-accept format (λ config. ok (cert ∷ [])) (client_tls library 15 [] device)
      (server_tls library 15 [] (device ∷ [])) [] (cert ∷ []) cert [] (codes "x") hello-IsSendable
      own_tls refl refl

short_enough : length (conn hello []).input < 7
short_enough = omega arith

serve_requests-ends_example :
    (e : Error) × ((serve_requests format 7 backend device (conn hello [])).0 ≡ err e)
serve_requests-ends_example =
    serve_requests-ends format backend device 7 (conn hello []) short_enough

-- A connection that was let in before the context ended
abbrev serving : Server
serving = on_accept 7 (on_arrive 7 start)

one_session : Run start serving
unfolding on_arrive
one_session =
    next (arrive 7 start refl refl refl refl)
      (next (accept 7 (on_arrive 7 start) refl) (done serving))

cancelled_session : Run start (on_cancel serving)
unfolding on_accept on_arrive
cancelled_session = next (arrive 7 start refl refl refl refl) (
    next (accept 7 (on_arrive 7 start) refl)
      (next (cancel serving refl) (done (on_cancel serving))))

session_cancelled : (on_cancel serving).cancelled ≡ true
unfolding on_cancel
session_cancelled = refl

reachable-IsSafe_example : IsSafe serving
reachable-IsSafe_example = reachable-IsSafe serving one_session

run-Ends_example :
    (((on_cancel serving).swept ≡ true) × Ends (on_cancel serving))
    ⊎ (Due (on_cancel serving) (on_stop (on_cancel serving)) × Ends (on_stop (on_cancel serving)))
run-Ends_example = run-Ends (on_cancel serving) cancelled_session session_cancelled
