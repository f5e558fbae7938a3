-- ===== src/Identity/Pair/Examined.antt =====
-- The pairs that `Load` accepts.
use mathlib.Core.Path.{subst}
use backuply.Base.{ℕ, ◌≡◌, ◌↔◌, refl, sym, ap, ◌∙◌, arith, Option, none, some, List, [], ◌∷◌}
use backuply.Base.Result.{ok, ok-injective, bind-eq-ok, guard}
use backuply.Text.{Text}
use backuply.Identity.Error.{Error}
use backuply.Identity.Certificate.{ed25519, is_ed25519, Library, fingerprint, validate_certificate}
use backuply.Identity.Certificate.Pinned.{
  IsValidCertificate, validate_certificate_iff, is_ed25519_iff,
}
use backuply.Identity.Pair.{Pair, Identity, or_error, the_certificate, examine}

-- One certificate, which is valid and whose fingerprint is the device's ID, with an Ed25519 key
pub record IsExamined (lib : Library) (now : ℕ) (pair : Pair) (id : Identity) : Type 0 where
  pub der : Text
  pub single : pair.chain ≡ der ∷ []
  pub parsed : lib.parse_certificate der ≡ some id.leaf
  pub valid : IsValidCertificate lib now id.leaf
  pub key : pair.key ≡ ed25519
  pub same_pair : id.pair ≡ pair
  pub same_id : id.id ≡ fingerprint lib id.leaf.raw

the_certificate-ok :
    (chain : List Text) (der : Text) → the_certificate chain ≡ ok der → chain ≡ der ∷ []
unfolding the_certificate
the_certificate-ok [] der h = cc
the_certificate-ok (x ∷ []) der h = ap (λ y. y ∷ []) (ok-injective h)
the_certificate-ok (x ∷ y ∷ xs) der h = cc

pub or_error-ok : {A : Type 0} (e : Error) (o : Option A) (a : A) → or_error e o ≡ ok a → o ≡ some a
unfolding or_error
or_error-ok e none a h = cc
or_error-ok e (some b) a h = ap some (ok-injective h)

same_identity : (a b : Identity) → a.pair ≡ b.pair → a.leaf ≡ b.leaf → a.id ≡ b.id → a ≡ b
same_identity a b p q r = λ i. record { pair = p i; leaf = q i; id = r i }

same_pair :
    (pair : Pair) (der : Text)
    → pair.chain ≡ der ∷ []
    → record { chain = der ∷ []; key = pair.key } ≡ pair
same_pair pair der e = λ i. record { chain = sym e i; key = pair.key }

pub examine_iff :
    (lib : Library) (now : ℕ) (pair : Pair) (id : Identity)
    → (examine lib now pair ≡ ok id) ↔ IsExamined lib now pair id
unfolding examine
examine_iff lib now pair id = (
  λ h.
      let (der, single, h1) = bind-eq-ok (the_certificate pair.chain) _ h in
      let (leaf, parsed, h2) = bind-eq-ok (or_error _ (lib.parse_certificate der)) _ h1 in
      let (_, valid, h3) = bind-eq-ok (validate_certificate lib now leaf) _ h2 in
      let (_, key, h4) = bind-eq-ok (guard (is_ed25519 pair.key) _) _ h3 in
      let e = ok-injective h4 in
      let same : leaf ≡ id.leaf = ap (λ i. i.leaf) e in
      record {
        der = der;
        single = the_certificate-ok pair.chain der single;
        parsed = or_error-ok _ _ leaf parsed ∙ ap some same;
        valid =
            subst (IsValidCertificate lib now) same
              ((validate_certificate_iff lib now leaf).0 valid);
        key = (is_ed25519_iff lib pair.key).0 (ground arith);
        same_pair = sym (ap (λ i. i.pair) e);
        same_id = sym (ap (λ i. i.id) e) ∙ ap (λ c. fingerprint lib c.raw) same;
      },
  λ k.
      let valid = (validate_certificate_iff lib now id.leaf).1 k.valid in
      unfold the_certificate or_error in
      rw (k.single, k.parsed, valid, (is_ed25519_iff lib pair.key).1 k.key)
        (ap ok (
          same_identity _ id (same_pair pair k.der k.single ∙ sym k.same_pair) refl
            (sym k.same_id))),
)
