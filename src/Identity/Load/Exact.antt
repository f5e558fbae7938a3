-- ===== src/Identity/Load/Exact.antt =====
-- The identities that `Load` returns.
use backuply.Base.{
  ℕ, ◌≡◌, ◌↔◌, ◌%◌, refl, sym, ap, ◌∙◌, arith, Bool, true, false, ◌&&◌, not, Option, none, some,
  List, [], ◌∷◌, ◌=ℕ◌, text_eq,
}
use backuply.Base.Dict
use backuply.Base.Dict.{Dict}
use backuply.Base.Result.{Result, ok, err, ok-injective}
use backuply.Base.Action.{pure, fail, lift, gets, try, ◌>>=◌, require}
use backuply.Base.Action.Inversion.{bind-ok, require-ok}
use backuply.Text.{Text}
use backuply.Identity.Error.{Error}
use backuply.Identity.Certificate.{Library}
use backuply.Identity.Directory.{
  File, Directory, step, step_with, or_missing, lstat, cert_name, key_name,
}
use backuply.Identity.Pair.{Pair, Identity, or_error}
use backuply.Identity.Pair.Examined.{or_error-ok, IsExamined, examine_iff}
use backuply.Identity.Load.{KeyLoader, or_incomplete, check_file, load}

-- The directory, where no call fails by itself
abbrev pub quiet : Dict Text File → Directory
quiet files = record { files = files; faults = [] }

-- A regular file, and for the key one that only its owner may use
pub record IsStored (is_key : Bool) (name : Text) (files : Dict Text File) : Type 0 where
  pub file : File
  pub found : Dict.lookup name files ≡ some file
  pub regular : file.is_regular ≡ true
  pub private : (not (is_key && not (file.mode % 64 =ℕ 0))) ≡ true

step_with-files :
    (faults : List (Option ℕ)) (w : Directory) → (step_with faults w).1.files ≡ w.files
unfolding step_with
step_with-files [] w = refl
step_with-files (x ∷ faults) w = refl

step-files : (w : Directory) → (step w).1.files ≡ w.files
unfolding step
step-files w = step_with-files w.faults w

or_missing-ok : (o : Option File) (f : File) → or_missing o ≡ ok f → o ≡ some f
unfolding or_missing
or_missing-ok none f h = cc
or_missing-ok (some g) f h = ap some (ok-injective h)

after_step-files :
    (r : Result Error (Unit {0})) (name : Text) (w : Directory)
    → ((lift r >>= λ _. gets (λ u. Dict.lookup name u.files) >>= λ found. lift (or_missing found))
        w).1
      ≡ w
unfolding ◌>>=◌
after_step-files (ok tt) name w = refl
after_step-files (err e) name w = refl

lstat-files : (name : Text) (w : Directory) → (lstat name w).1.files ≡ w.files
unfolding lstat ◌>>=◌
lstat-files name w = ap (λ u. u.files) (after_step-files (step w).0 name (step w).1) ∙ step-files w

lstat-ok :
    (name : Text) (f : File) (w : Directory)
    → (lstat name w).0 ≡ ok f
    → Dict.lookup name w.files ≡ some f
unfolding lstat gets lift ◌>>=◌
lstat-ok name f w h =
    let (_, _, k, _) = bind-ok step _ w h in
    ap (λ d. Dict.lookup name d) (sym (step-files w)) ∙ or_missing-ok _ f k

or_incomplete-ok : (r : Result Error File) (f : File) → or_incomplete r ≡ ok f → r ≡ ok f
unfolding or_incomplete
or_incomplete-ok (ok g) f h = h
or_incomplete-ok (err e) f h = cc

require-last :
    (b : Bool) (e : Error) (w : Directory)
    → (require b e w).0 ≡ ok tt
    → (b ≡ true) × ((require b e w).1 ≡ w)
unfolding pure fail
require-last true e w h = (refl, refl)
require-last false e w h = cc

check_file-ok :
    (is_key : Bool) (name : Text) (w : Directory)
    → (check_file is_key name w).0 ≡ ok tt
    → IsStored is_key name w.files × ((check_file is_key name w).1.files ≡ w.files)
unfolding check_file try lift
check_file-ok is_key name w h =
    let (found, e, h1, s1) = bind-ok (try (lstat name)) _ w h in
    let (info, i, h2, s2) = bind-ok (lift (or_incomplete found)) _ _ h1 in
    let (regular, h3, s3) = require-ok info.is_regular _ _ _ h2 in
    let last = require-last (not (is_key && not (info.mode % 64 =ℕ 0))) _ (lstat name w).1 h3 in
    let there = or_incomplete-ok _ info (ap or_incomplete (ok-injective e) ∙ i) in
    (
      record {
        file = info;
        found = lstat-ok name info w there;
        regular = regular;
        private = last.0;
      },
      ap (λ x. x.1.files) (s1 ∙ s2 ∙ s3) ∙ ap (λ u. u.files) last.1 ∙ lstat-files name w,
    )

-- Both files stand in the directory, and the pair in them is accepted.
pub record IsIdentity (lib : Library) (load_pair : KeyLoader) (now : ℕ) (files : Dict Text File)
    (id : Identity) : Type 0 where
  pub cert : IsStored false cert_name files
  pub key : IsStored true key_name files
  pub pair : Pair
  pub loaded : load_pair cert.file.bytes key.file.bytes ≡ some pair
  pub examined : IsExamined lib now pair id

same_file :
    (name : Text) (f g : File) (d e : Dict Text File)
    → d ≡ e
    → Dict.lookup name d ≡ some f
    → Dict.lookup name e ≡ some g
    → f ≡ g
same_file name f g d e s a b =
    let c : some f ≡ some g = sym a ∙ ap (λ x. Dict.lookup name x) s ∙ b in ground (arith, c)

module _ (lib : Library) (load_pair : KeyLoader) (now : ℕ) where
  pub load_sound :
      (id : Identity) (w : Directory)
      → (load lib load_pair now w).0 ≡ ok id
      → IsIdentity lib load_pair now w.files id × ((load lib load_pair now w).1.files ≡ w.files)
  unfolding load lift
  load_sound id w h =
      let (_, c, h1, s1) = bind-ok (check_file false cert_name) _ w h in
      let (cert, cfiles) = check_file-ok false cert_name w c in
      let w1 = (check_file false cert_name w).1 in
      let (_, k, h2, s2) = bind-ok (check_file true key_name) _ w1 h1 in
      let (key, kfiles) = check_file-ok true key_name w1 k in
      let w2 = (check_file true key_name w1).1 in
      let (fc, c', h3, s3) = bind-ok (lstat cert_name) _ w2 h2 in
      let w3 = (lstat cert_name w2).1 in
      let (fk, k', h4, s4) = bind-ok (lstat key_name) _ w3 h3 in
      let w4 = (lstat key_name w3).1 in
      let (pair, p', h5, s5) = bind-ok (lift (or_error _ (load_pair fc.bytes fk.bytes))) _ w4 h4 in
      let files2 : w2.files ≡ w.files = kfiles ∙ cfiles in
      let files3 : w3.files ≡ w.files = lstat-files cert_name w2 ∙ files2 in
      let same_cert =
        same_file cert_name fc cert.file w2.files w.files files2 (lstat-ok _ fc w2 c') cert.found in
      let same_key =
        same_file key_name fk key.file w3.files w.files files3 (lstat-ok _ fk w3 k')
          (ap (λ d. Dict.lookup key_name d) (sym cfiles) ∙ key.found) in
      (
        record {
          cert = cert;
          key = record {
            file = key.file;
            found = ap (λ d. Dict.lookup key_name d) (sym cfiles) ∙ key.found;
            regular = key.regular;
            private = key.private;
          };
          pair = pair;
          loaded =
              ap (λ f. load_pair f.bytes key.file.bytes) (sym same_cert)
              ∙ ap (λ f. load_pair fc.bytes f.bytes) (sym same_key)
              ∙ or_error-ok _ _ pair p';
          examined = (examine_iff lib now pair id).0 h5;
        },
        ap (λ x. x.1.files) (s1 ∙ s2 ∙ s3 ∙ s4 ∙ s5) ∙ lstat-files key_name w3 ∙ files3,
      )

  -- Where no call fails by itself, `Load` returns an identity exactly if both its files are regular, only
  -- the owner may use the key, and they hold a key of Ed25519 with one certificate, valid now and signed
  -- by itself, whose fingerprint is the ID.
  pub load_iff :
      (files : Dict Text File) (id : Identity)
      → ((load lib load_pair now (quiet files)).0 ≡ ok id) ↔ IsIdentity lib load_pair now files id
  unfolding load check_file lstat step step_with try gets lift pure or_missing or_incomplete
      or_error ◌>>=◌
  load_iff files id = (
    λ h. (load_sound id (quiet files) h).0,
    λ k.
        let examined = (examine_iff lib now k.pair id).1 k.examined in
        rw
          (
            k.cert.found, k.cert.regular, k.key.found, k.key.regular, k.key.private, k.cert.found,
            k.key.found, k.loaded, examined,
          )
          refl,
  )
