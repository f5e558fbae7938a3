-- ===== src/Identity/Create/Once.antt =====
-- `LoadOrCreate` again, after it has returned.
use backuply.Base.{
  ℕ, ◌≡◌, ◌≤◌, ◌↔◌, refl, sym, ap, ◌∙◌, Bool, true, false, ◌&&◌, Option, text_eq, if◌then◌else◌,
}
use mathlib.Core.Path.{subst}
use backuply.Base.Dict.{Dict}
use backuply.Base.Result.{ok}
use backuply.Base.Action.{lift, gets, try, ◌>>=◌, ◌>>◌}
use backuply.Base.Action.Inversion.{bind-ok}
use backuply.Text.{Text}
use backuply.Identity.Certificate.{Library}
use backuply.Identity.Directory.{
  File, Directory, step, step_with, or_missing, lstat, cert_name, key_name,
}
use backuply.Identity.Pair.{Identity}
use backuply.Identity.Load.{KeyLoader, load}
use backuply.Identity.Load.Exact.{quiet, IsStored, IsIdentity, load_sound, load_iff}
use backuply.Identity.Create.{make, load_or_create, is_missing}

module _ (lib : Library) (load_pair : KeyLoader) (now : ℕ) where
  -- What it returns is what `load` returns in the end.
  branch_ok :
      (b : Bool) (nonce nonce' : Text) (generated : Option (Text × Text)) (w : Directory)
      (id : Identity)
      → ((if b
            then (make nonce nonce' generated >> load lib load_pair now)
            else load lib load_pair now)
          w).0
        ≡ ok id
      → (u : Directory) × ((load lib load_pair now u).0 ≡ ok id)
        × ((if b
                then (make nonce nonce' generated >> load lib load_pair now)
                else load lib load_pair now)
              w
            ≡ load lib load_pair now u)
  branch_ok true nonce nonce' generated w id h =
      let (_, _, k, s) = bind-ok (make nonce nonce' generated) _ w h in
      ((make nonce nonce' generated w).1, k, s)
  branch_ok false nonce nonce' generated w id h = (w, h, refl)

  load_or_create-ok :
      (nonce nonce' : Text) (generated : Option (Text × Text)) (w : Directory) (id : Identity)
      → (load_or_create lib load_pair now nonce nonce' generated w).0 ≡ ok id
      → IsIdentity lib load_pair now
          (load_or_create lib load_pair now nonce nonce' generated w).1.files
          id
  unfolding load_or_create
  load_or_create-ok nonce nonce' generated w id h =
      let (cert, _, h1, s1) = bind-ok (try (lstat cert_name)) _ w h in
      let w1 = (try (lstat cert_name) w).1 in
      let (key, _, h2, s2) = bind-ok (try (lstat key_name)) _ w1 h1 in
      let w2 = (try (lstat key_name) w1).1 in
      let (u, k, s3) =
        branch_ok (is_missing cert && is_missing key) nonce nonce' generated w2 id h2 in
      let (loaded, files) = load_sound lib load_pair now id u k in
      subst (λ d. IsIdentity lib load_pair now d id)
        (sym (ap (λ x. x.1.files) (s1 ∙ s2 ∙ s3) ∙ files)) loaded

-- Of what is loaded, only the certificate's period depends on the time.
later-IsIdentity :
    (lib : Library) (load_pair : KeyLoader) (now later : ℕ) (files : Dict Text File) (id : Identity)
    → IsIdentity lib load_pair now files id
    → id.leaf.not_before ≤ later
    → later ≤ id.leaf.not_after
    → IsIdentity lib load_pair later files id
later-IsIdentity lib load_pair now later files id k started not_over =
    let valid = k.examined.valid in
    record {
      cert = k.cert;
      key = k.key;
      pair = k.pair;
      loaded = k.loaded;
      examined = record {
        der = k.examined.der;
        single = k.examined.single;
        parsed = k.examined.parsed;
        valid = record {
          algorithm = valid.algorithm;
          started = started;
          not_over = not_over;
          signs = valid.signs;
          self_signed = valid.self_signed;
        };
        key = k.examined.key;
        same_pair = k.examined.same_pair;
        same_id = k.examined.same_id;
      };
    }

module _ (lib : Library) (load_pair : KeyLoader) (now later : ℕ) where
  again :
      (nonce nonce' : Text) (generated : Option (Text × Text)) (files : Dict Text File)
      (cert : IsStored false cert_name files)
      → load_or_create lib load_pair later nonce nonce' generated (quiet files)
        ≡ load lib load_pair later (quiet files)
  unfolding load_or_create lstat step step_with try gets lift or_missing is_missing ◌>>=◌
  again nonce nonce' generated files cert = rw (cert.found) refl

  -- Once `LoadOrCreate` has returned an identity, another call at any other time, whatever it would have
  -- generated, returns the same identity exactly if its certificate is within its period then,
  -- provided that no call of the operating system fails in the second.
  pub load_or_create-load_or_create :
      (nonce nonce' other other' : Text) (generated fresh : Option (Text × Text)) (w : Directory)
      (id : Identity)
      → (load_or_create lib load_pair now nonce nonce' generated w).0 ≡ ok id
      → ((load_or_create lib load_pair later other other' fresh
            (quiet (load_or_create lib load_pair now nonce nonce' generated w).1.files)).0
          ≡ ok id)
        ↔ ((id.leaf.not_before ≤ later) × (later ≤ id.leaf.not_after))
  load_or_create-load_or_create nonce nonce' other other' generated fresh w id h =
      let files = (load_or_create lib load_pair now nonce nonce' generated w).1.files in
      let k = load_or_create-ok lib load_pair now nonce nonce' generated w id h in
      let same = ap (λ r. r.0) (again other other' fresh files k.cert) in
      let (there, back) = load_iff lib load_pair later files id in
      (
        λ r. let v = (there (sym same ∙ r)).examined.valid in (v.started, v.not_over),
        λ (p : (id.leaf.not_before ≤ later) × (later ≤ id.leaf.not_after)).
            same ∙ back (later-IsIdentity lib load_pair now later files id k p.0 p.1),
      )
