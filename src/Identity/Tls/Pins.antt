-- ===== src/Identity/Tls/Pins.antt =====
-- What the TLS configurations of a device accept.
use backuply.Base.{
  ℕ, ◌≡◌, ◌↔◌, ◌∙◌, refl, arith, Bool, true, false, ◌||◌, none, some, List, [], ◌∷◌, text_eq,
  contains,
}
use backuply.Base.Dict
use backuply.Base.Result.{ok}
use backuply.Text.{Text}
use backuply.Identity.Error.{Check}
use backuply.Identity.Certificate.{Certificate, Library, allow, is_allowed}
use backuply.Identity.Certificate.Pinned.{IsPinned, is_allowed-allow, verify_peer_iff}
use backuply.Identity.Tls.{TlsConfig, server_tls, client_tls}

-- What a configuration's VerifyConnection says of the peer's certificates, nil accepting them all
unfoldable pub verify : TlsConfig → List Certificate → Check
verify config certs = elim config.verify_connection [ none ↦ ok tt | some f ↦ f certs ]

module _ (lib : Library) where
  in_empty : (b : Bool) → (b || is_allowed lib [] []) ≡ b
  unfolding is_allowed Dict.lookup
  in_empty true = refl
  in_empty false = refl

  allow-contains :
      (ids : List Text) (id : Text) → is_allowed lib (allow lib ids []) id ≡ contains id ids
  unfolding is_allowed Dict.lookup
  allow-contains ids id = is_allowed-allow lib ids [] id ∙ in_empty (contains id ids)

  expected-contains :
      (expected id : Text) → is_allowed lib ((expected, true) ∷ []) id ≡ contains id (expected ∷ [])
  unfolding is_allowed Dict.lookup
  expected-contains expected id = ground arith

  -- The server's configuration accepts exactly the connections with one certificate that is valid and
  -- whose fingerprint is one of the allowed IDs, and the client's exactly those with one certificate
  -- that is valid and whose fingerprint is the expected ID.
  pub verify_iff :
      (now : ℕ) (chain ids : List Text) (expected : Text) (certs : List Certificate)
      → ((verify (server_tls lib now chain ids) certs ≡ ok tt) ↔ IsPinned lib now ids certs)
        × ((verify (client_tls lib now chain expected) certs ≡ ok tt)
            ↔ IsPinned lib now (expected ∷ []) certs)
  unfolding verify server_tls client_tls
  verify_iff now chain ids expected certs = (
    verify_peer_iff lib now (allow lib ids []) ids certs (allow-contains ids),
    verify_peer_iff lib now ((expected, true) ∷ []) (expected ∷ []) certs
        (expected-contains expected),
  )
