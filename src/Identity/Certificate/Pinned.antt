-- ===== src/Identity/Certificate/Pinned.antt =====
-- The connections that `verifyPeer` accepts.
use backuply.Base.{
  ℕ, ◌≤◌, ◌≡◌, ◌↔◌, ◌%◌, refl, arith, Bool, true, ◌||◌, List, [], ◌∷◌, text_eq, contains,
}
use backuply.Base.Dict
use backuply.Base.Dict.{Dict, lookup-insert}
use backuply.Base.Result.{ok}
use backuply.Text.{Text}
use backuply.Identity.Certificate.{
  Algorithm, ed25519, other_algorithm, is_ed25519, Certificate, Library, fingerprint,
  validate_certificate, allow, is_allowed, verify_peer,
}

module _ (lib : Library) where
  pub record IsValidCertificate (now : ℕ) (cert : Certificate) : Type 0 where
    pub algorithm : cert.algorithm ≡ ed25519
    pub started : cert.not_before ≤ now
    pub not_over : now ≤ cert.not_after
    pub signs : cert.key_usage % 2 ≡ 1
    pub self_signed : lib.check_signature cert ≡ true

  pub is_ed25519_iff : (a : Algorithm) → (is_ed25519 a ≡ true) ↔ (a ≡ ed25519)
  unfolding is_ed25519
  is_ed25519_iff ed25519 = (λ _. refl, λ _. refl)
  is_ed25519_iff other_algorithm = (λ h. cc, λ h. cc)

  pub validate_certificate_iff :
      (now : ℕ) (cert : Certificate)
      → (validate_certificate lib now cert ≡ ok tt) ↔ IsValidCertificate now cert
  unfolding validate_certificate
  validate_certificate_iff now cert =
      let (s, c) = is_ed25519_iff cert.algorithm in
      (
        λ h. record {
          algorithm = s (ground arith);
          started = ground arith;
          not_over = ground arith;
          signs = ground arith;
          self_signed = ground arith;
        },
        λ k. ground (arith, c k.algorithm, k.started, k.not_over, k.signs, k.self_signed),
      )

  -- The map of `ServerTLS` holds what the list does.
  pub is_allowed-allow :
      (ids : List Text) (d : Dict Text Bool) (id : Text)
      → is_allowed lib (allow lib ids d) id ≡ (contains id ids || is_allowed lib d id)
  unfolding is_allowed allow
  is_allowed-allow [] d id = refl
  is_allowed-allow (x ∷ ids) d id =
      ground (arith, is_allowed-allow ids (Dict.insert x true d) id, lookup-insert id x true d)

  -- One certificate, valid now, whose fingerprint is among the IDs
  pub record IsPinned (now : ℕ) (ids : List Text) (certs : List Certificate) : Type 0 where
    pub cert : Certificate
    pub single : certs ≡ cert ∷ []
    pub valid : IsValidCertificate now cert
    pub among : contains (fingerprint lib cert.raw) ids ≡ true

  pub verify_peer_iff :
      (now : ℕ) (allowed : Dict Text Bool) (ids : List Text) (certs : List Certificate)
      → ((id : Text) → is_allowed lib allowed id ≡ contains id ids)
      → (verify_peer lib now allowed certs ≡ ok tt) ↔ IsPinned now ids certs
  unfolding verify_peer
  verify_peer_iff now allowed ids [] same = (λ h. cc, λ k. let e = k.single in cc)
  verify_peer_iff now allowed ids (cert ∷ []) same =
      let (s, c) = validate_certificate_iff now cert in
      let among = same (fingerprint lib cert.raw) in
      (
        λ h. record {
          cert = cert;
          single = refl;
          valid = s (ground arith);
          among = ground (arith, among);
        },
        λ k.
            let e : cert ≡ k.cert = let single = k.single in ground arith in
            let valid = c (rw e k.valid) in
            let listed : contains (fingerprint lib cert.raw) ids ≡ true = rw e k.among in
            ground (arith, among, valid, listed),
      )
  verify_peer_iff now allowed ids (cert ∷ next ∷ certs) same =
      (λ h. cc, λ k. let e = k.single in ground arith)
